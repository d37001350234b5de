-- ===== src/Kkm/Queries.antt =====
-- The queries of a device, each with its new result and its export, for `callMethod` and
-- `collectDataFromMethods`.
use kkm_https_adapter.Base.{List, [], ◌∷◌, Bytes}
use kkm_https_adapter.Http.JsonValue.{Json}
use kkm_https_adapter.Kkm.Driver.{Driver}
use kkm_https_adapter.Kkm.Method.{Method}
use kkm_https_adapter.Kkm.Status.{
  get_status, get_shift_state, get_receipt_state, get_cash_stat, get_fndt_ofd_exchange_status,
}
use kkm_https_adapter.Kkm.Fiscal.{
  get_fndt_fn_info, get_fndt_registration_info, get_fndt_last_registration, get_fndt_last_receipt,
  get_fndt_last_document, get_fndt_errors, get_ffd_version, get_fw_version,
}
use kkm_https_adapter.Kkm.Initial.{
  new_status, new_shift_state, new_receipt_state, new_cash_stat, new_fndt_ofd_exchange_status,
  new_fndt_fn_info, new_fndt_registration_info, new_fndt_last_registration, new_fndt_last_receipt,
  new_fndt_last_document, new_fndt_errors, new_ffd_version, new_fw_version,
}
use kkm_https_adapter.Kkm.Export.{Exporter}
use kkm_https_adapter.Kkm.Export.Status.{
  status_key, status_fields, shift_state_key, shift_state_fields, receipt_state_key,
  receipt_state_fields, cash_stat_key, cash_stat_fields,
}
use kkm_https_adapter.Kkm.Export.Fiscal.{
  fndt_ofd_exchange_status_key, fndt_ofd_exchange_status_fields, fndt_fn_info_key,
  fndt_fn_info_fields, fndt_registration_info_key, fndt_registration_info_fields,
  fndt_last_registration_key, fndt_last_registration_fields, fndt_last_receipt_key,
  fndt_last_receipt_fields, fndt_last_document_key, fndt_last_document_fields, fndt_errors_key,
  fndt_errors_fields, ffd_version_key, ffd_version_fields, fw_version_key, fw_version_fields,
}
use kkm_https_adapter.Kkm.Export.Collecting.{Query}

module _ (x : Exporter) (k : Driver) where
  abbrev query : {A : Type 0} → Bytes → (A → Json) → A → Method A → Query
  query {A} key fields initial method = record {
    Rest = A;
    initial = initial;
    key = key;
    fields = fields;
    method = method;
  }

  unfoldable pub status_query : Query
  unfolding status_fields get_status
  status_query = query status_key (status_fields x) (new_status x.numbers) (get_status k)

  unfoldable pub shift_state_query : Query
  unfolding shift_state_fields get_shift_state
  shift_state_query =
      query shift_state_key (shift_state_fields x) (new_shift_state x.numbers) (get_shift_state k)

  unfoldable pub receipt_state_query : Query
  unfolding receipt_state_fields get_receipt_state
  receipt_state_query =
      query receipt_state_key (receipt_state_fields x) (new_receipt_state x.numbers)
        (get_receipt_state k)

  unfoldable pub cash_stat_query : Query
  unfolding cash_stat_fields get_cash_stat
  cash_stat_query =
      query cash_stat_key (cash_stat_fields x) (new_cash_stat x.numbers) (get_cash_stat k)

  unfoldable pub fndt_ofd_exchange_status_query : Query
  unfolding fndt_ofd_exchange_status_fields get_fndt_ofd_exchange_status
  fndt_ofd_exchange_status_query =
      query fndt_ofd_exchange_status_key (fndt_ofd_exchange_status_fields x)
        (new_fndt_ofd_exchange_status x.numbers) (get_fndt_ofd_exchange_status k)

  unfoldable pub fndt_fn_info_query : Query
  unfolding fndt_fn_info_fields get_fndt_fn_info
  fndt_fn_info_query =
      query fndt_fn_info_key (fndt_fn_info_fields x) (new_fndt_fn_info x.numbers)
        (get_fndt_fn_info k)

  unfoldable pub fndt_registration_info_query : Query
  unfolding fndt_registration_info_fields get_fndt_registration_info
  fndt_registration_info_query =
      query fndt_registration_info_key (fndt_registration_info_fields x)
        (new_fndt_registration_info x.numbers) (get_fndt_registration_info k)

  unfoldable pub fndt_last_registration_query : Query
  unfolding fndt_last_registration_fields get_fndt_last_registration
  fndt_last_registration_query =
      query fndt_last_registration_key (fndt_last_registration_fields x)
        (new_fndt_last_registration x.numbers) (get_fndt_last_registration k)

  unfoldable pub fndt_last_receipt_query : Query
  unfolding fndt_last_receipt_fields get_fndt_last_receipt
  fndt_last_receipt_query =
      query fndt_last_receipt_key (fndt_last_receipt_fields x) (new_fndt_last_receipt x.numbers)
        (get_fndt_last_receipt k)

  unfoldable pub fndt_last_document_query : Query
  unfolding fndt_last_document_fields get_fndt_last_document
  fndt_last_document_query =
      query fndt_last_document_key (fndt_last_document_fields x) (new_fndt_last_document x.numbers)
        (get_fndt_last_document k)

  unfoldable pub fndt_errors_query : Query
  unfolding fndt_errors_fields get_fndt_errors
  fndt_errors_query =
      query fndt_errors_key (fndt_errors_fields x) (new_fndt_errors x.numbers) (get_fndt_errors k)

  unfoldable pub ffd_version_query : Query
  unfolding ffd_version_fields get_ffd_version
  ffd_version_query =
      query ffd_version_key (ffd_version_fields x) (new_ffd_version x.numbers) (get_ffd_version k)

  unfoldable pub fw_version_query : Query
  unfolding fw_version_fields get_fw_version
  fw_version_query =
      query fw_version_key (fw_version_fields x) (new_fw_version x.numbers) (get_fw_version k)

  unfoldable pub status_queries : List Query
  unfolding status_query shift_state_query receipt_state_query cash_stat_query
      fndt_ofd_exchange_status_query fndt_last_receipt_query fndt_last_document_query
      fndt_errors_query
  status_queries =
      status_query ∷ shift_state_query ∷ receipt_state_query ∷ cash_stat_query
      ∷ fndt_ofd_exchange_status_query ∷ fndt_last_receipt_query ∷ fndt_last_document_query
      ∷ fndt_errors_query ∷ []

  unfoldable pub full_status_queries : List Query
  unfolding status_query shift_state_query receipt_state_query cash_stat_query
      fndt_ofd_exchange_status_query fndt_fn_info_query fndt_registration_info_query
      fndt_last_registration_query fndt_last_receipt_query fndt_last_document_query
      fndt_errors_query ffd_version_query fw_version_query
  full_status_queries =
      status_query ∷ shift_state_query ∷ receipt_state_query ∷ cash_stat_query
      ∷ fndt_ofd_exchange_status_query ∷ fndt_fn_info_query ∷ fndt_registration_info_query
      ∷ fndt_last_registration_query ∷ fndt_last_receipt_query ∷ fndt_last_document_query
      ∷ fndt_errors_query ∷ ffd_version_query ∷ fw_version_query ∷ []
