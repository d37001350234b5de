-- ===== src/Kkm/Export/Fiscal.antt =====
-- The export of the fiscal storage's state and of versions: the overloads of `assign` in
-- src/library/kkm/impex.cpp.
use kkm_https_adapter.Base.{Bool, Bytes, utf8}
use kkm_https_adapter.Http.JsonValue.{Json, boolean, number, string, object, Fields, end, field}
use kkm_https_adapter.Kkm.Labels.{safe_get, ffd_versions}
use kkm_https_adapter.Kkm.Initial.{Flag}
use kkm_https_adapter.Kkm.Export.{Exporter, has_bit, assign_with}
use kkm_https_adapter.Kkm.Results.{
  Result, FndtOfdExchangeStatus, FndtFnInfo, FndtRegistrationInfo, FndtLastRegistration,
  FndtLastReceipt, FndtLastDocument, FndtErrors, FfdVersion, FwVersion,
}

abbrev pub fndt_ofd_exchange_status_key : Bytes
fndt_ofd_exchange_status_key = utf8 "ofdExchangeStatus"

abbrev pub fndt_fn_info_key : Bytes
fndt_fn_info_key = utf8 "fnInfo"

abbrev pub fndt_registration_info_key : Bytes
fndt_registration_info_key = utf8 "registrationInfo"

abbrev pub fndt_last_registration_key : Bytes
fndt_last_registration_key = utf8 "lastRegistration"

abbrev pub fndt_last_receipt_key : Bytes
fndt_last_receipt_key = utf8 "lastReceipt"

abbrev pub fndt_last_document_key : Bytes
fndt_last_document_key = utf8 "lastDocument"

abbrev pub fndt_errors_key : Bytes
fndt_errors_key = utf8 "fndtErrors"

abbrev pub ffd_version_key : Bytes
ffd_version_key = utf8 "ffdVersions"

abbrev pub fw_version_key : Bytes
fw_version_key = utf8 "fwVersions"

module _ (x : Exporter) where
  unfoldable pub fndt_ofd_exchange_status_fields : FndtOfdExchangeStatus → Json
  fndt_ofd_exchange_status_fields a = object (
      field (utf8 "exchangeStatus") (number (x.of_unsigned a.exchange_status)) (
        field (utf8 "unsentCount") (number (x.of_unsigned a.unsent_count)) (
          field (utf8 "firstUnsentNumber") (number (x.of_unsigned a.first_unsent_number)) (
            field (utf8 "ofdMessageRead") (boolean a.ofd_message_read) (
              field (utf8 "firstUnsentDateTime") (string (x.date_text a.first_unsent_date_time)) (
                field (utf8 "okpDateTime") (string (x.date_text a.okp_date_time)) (
                  field (utf8 "lastSentDateTime") (string (x.date_text a.last_sent_date_time))
                    end)))))))

  unfoldable pub assign_fndt_ofd_exchange_status :
      Fields → Result FndtOfdExchangeStatus → Bool × Fields
  unfolding assign_with fndt_ofd_exchange_status_fields
  assign_fndt_ofd_exchange_status =
      assign_with x fndt_ofd_exchange_status_key fndt_ofd_exchange_status_fields

  unfoldable pub fndt_fn_info_fields : FndtFnInfo → Json
  fndt_fn_info_fields a = object (
      field (utf8 "serial") (string (x.narrow a.serial)) (
        field (utf8 "version") (string (x.narrow a.version)) (
          field (utf8 "execution") (string (x.narrow a.execution)) (
            field (utf8 "type") (number (x.of_unsigned a.type)) (
              field (utf8 "state") (number (x.of_unsigned a.state)) (
                field (utf8 "flags") (number (x.of_unsigned a.flags)) (
                  field (utf8 "needReplacement") (boolean a.need_replacement) (
                    field (utf8 "exhausted") (boolean a.exhausted) (
                      field (utf8 "memoryOverflow") (boolean a.memory_overflow) (
                        field (utf8 "ofdTimeout") (boolean a.ofd_timeout) (
                          field (utf8 "criticalError") (boolean a.critical_error) (
                            field (utf8 "keysUpdaterServerUri")
                              (string (x.narrow a.keys_updater_server_uri)) end))))))))))))

  unfoldable pub assign_fndt_fn_info : Fields → Result FndtFnInfo → Bool × Fields
  unfolding assign_with fndt_fn_info_fields
  assign_fndt_fn_info = assign_with x fndt_fn_info_key fndt_fn_info_fields

  unfoldable pub fndt_registration_info_fields : FndtRegistrationInfo → Json
  unfolding safe_get ffd_versions
  fndt_registration_info_fields a = object (
      field (utf8 "fnsUrl") (string (x.narrow a.fns_url)) (
        field (utf8 "organizationAddress") (string (x.narrow a.organization_address)) (
          field (utf8 "organizationVATIN") (string (x.narrow a.organization_vatin)) (
            field (utf8 "organizationName") (string (x.narrow a.organization_name)) (
              field (utf8 "organizationEmail") (string (x.narrow a.organization_email)) (
                field (utf8 "paymentsAddress") (string (x.narrow a.payments_address)) (
                  field (utf8 "registrationNumber") (string (x.narrow a.registration_number)) (
                    field (utf8 "machineNumber") (string (x.narrow a.machine_number)) (
                      field (utf8 "ofdVATIN") (string (x.narrow a.ofd_vatin)) (
                        field (utf8 "ofdName") (string (x.narrow a.ofd_name)) (
                          field (utf8 "taxationTypes")
                            (object (
                              field (utf8 "osn") (boolean (has_bit x a.taxation_types Flag.tt_osn))
                                (field (utf8 "usnIncome")
                                  (boolean (has_bit x a.taxation_types Flag.tt_usn_income))
                                  (field (utf8 "usnIncomeOutcome")
                                    (boolean
                                      (has_bit x a.taxation_types Flag.tt_usn_income_outcome))
                                    (field (utf8 "esn")
                                      (boolean (has_bit x a.taxation_types Flag.tt_esn))
                                      (field (utf8 "patent")
                                        (boolean (has_bit x a.taxation_types Flag.tt_patent))
                                        end))))))
                            (field (utf8 "agentSign")
                              (object (
                                field (utf8 "bankPayingAgent")
                                  (boolean (has_bit x a.agent_sign Flag.at_bank_paying_agent))
                                  (field (utf8 "bankPayingSubagent")
                                    (boolean (has_bit x a.agent_sign Flag.at_bank_paying_subagent))
                                    (field (utf8 "payingAgent")
                                      (boolean (has_bit x a.agent_sign Flag.at_paying_agent))
                                      (field (utf8 "payingSubagent")
                                        (boolean (has_bit x a.agent_sign Flag.at_paying_subagent))
                                        (field (utf8 "attorney")
                                          (boolean (has_bit x a.agent_sign Flag.at_attorney))
                                          (field (utf8 "commissionAgent")
                                            (boolean
                                              (has_bit x a.agent_sign Flag.at_commission_agent))
                                            (field (utf8 "another")
                                              (boolean (has_bit x a.agent_sign Flag.at_another))
                                              end))))))))
                              (field (utf8 "ffdVersion")
                                (string (safe_get (ffd_versions x.numbers.ffd) a.ffd_version))
                                (field (utf8 "autoModeSign") (boolean a.auto_mode_sign) (
                                  field (utf8 "offlineModeSign") (boolean a.offline_mode_sign) (
                                    field (utf8 "encryptionSign") (boolean a.encryption_sign) (
                                      field (utf8 "internetSign") (boolean a.internet_sign) (
                                        field (utf8 "serviceSign") (boolean a.service_sign) (
                                          field (utf8 "bsoSign") (boolean a.bso_sign) (
                                            field (utf8 "lotterySign") (boolean a.lottery_sign) (
                                              field (utf8 "gamblingSign") (boolean a.gambling_sign)
                                                (field (utf8 "exciseSign") (boolean a.excise_sign) (
                                                  field (utf8 "machineInstallationSign")
                                                    (boolean a.machine_installation_sign)
                                                    (field (utf8 "tradeMarkedProducts")
                                                      (boolean a.trade_marked_products)
                                                      (field (utf8 "insuranceActivity")
                                                        (boolean a.insurance_activity)
                                                        (field (utf8 "pawnShopActivity")
                                                          (boolean a.pawn_shop_activity)
                                                          (field (utf8 "vending")
                                                            (boolean a.vending)
                                                            (field (utf8 "catering")
                                                            (boolean a.catering)
                                                            (field (utf8 "wholesale")
                                                            (boolean a.wholesale)
                                                            end)))))))))))))))))))))))))))))

  unfoldable pub assign_fndt_registration_info :
      Fields → Result FndtRegistrationInfo → Bool × Fields
  unfolding assign_with fndt_registration_info_fields
  assign_fndt_registration_info =
      assign_with x fndt_registration_info_key fndt_registration_info_fields

  unfoldable pub fndt_last_registration_fields : FndtLastRegistration → Json
  fndt_last_registration_fields a = object (
      field (utf8 "documentNumber") (number (x.of_unsigned a.document_number)) (
        field (utf8 "registrationsCount") (number (x.of_unsigned a.registrations_count)) (
          field (utf8 "registrationDateTime") (string (x.date_text a.registration_date_time)) end)))

  unfoldable pub assign_fndt_last_registration :
      Fields → Result FndtLastRegistration → Bool × Fields
  unfolding assign_with fndt_last_registration_fields
  assign_fndt_last_registration =
      assign_with x fndt_last_registration_key fndt_last_registration_fields

  unfoldable pub fndt_last_receipt_fields : FndtLastReceipt → Json
  fndt_last_receipt_fields a = object (
      field (utf8 "documentNumber") (number (x.of_unsigned a.document_number)) (
        field (utf8 "receiptSum") (number (x.of_double a.receipt_sum)) (
          field (utf8 "fiscalSign") (string (x.narrow a.fiscal_sign))
            (field (utf8 "documentDateTime") (string (x.date_text a.document_date_time)) end))))

  unfoldable pub assign_fndt_last_receipt : Fields → Result FndtLastReceipt → Bool × Fields
  unfolding assign_with fndt_last_receipt_fields
  assign_fndt_last_receipt = assign_with x fndt_last_receipt_key fndt_last_receipt_fields

  unfoldable pub fndt_last_document_fields : FndtLastDocument → Json
  fndt_last_document_fields a = object (
      field (utf8 "documentNumber") (number (x.of_unsigned a.document_number)) (
        field (utf8 "fiscalSign") (string (x.narrow a.fiscal_sign))
          (field (utf8 "documentDateTime") (string (x.date_text a.document_date_time)) end)))

  unfoldable pub assign_fndt_last_document : Fields → Result FndtLastDocument → Bool × Fields
  unfolding assign_with fndt_last_document_fields
  assign_fndt_last_document = assign_with x fndt_last_document_key fndt_last_document_fields

  unfoldable pub fndt_errors_fields : FndtErrors → Json
  fndt_errors_fields a = object (
      field (utf8 "networkError") (number (x.of_unsigned a.network_error)) (
        field (utf8 "networkErrorText") (string (x.narrow a.network_error_text)) (
          field (utf8 "ofdError") (number (x.of_unsigned a.ofd_error)) (
            field (utf8 "ofdErrorText") (string (x.narrow a.ofd_error_text)) (
              field (utf8 "fnError") (number (x.of_unsigned a.fn_error)) (
                field (utf8 "fnErrorText") (string (x.narrow a.fn_error_text)) (
                  field (utf8 "failedDocumentNumber") (number (x.of_unsigned a.document_number)) (
                    field (utf8 "failedCommandCode") (number (x.of_unsigned a.command_code)) (
                      field (utf8 "successDateTime") (string (x.date_text a.success_date_time)) (
                        field (utf8 "dataForSendIsEmpty") (boolean a.data_for_send_is_empty)
                          end))))))))))

  unfoldable pub assign_fndt_errors : Fields → Result FndtErrors → Bool × Fields
  unfolding assign_with fndt_errors_fields
  assign_fndt_errors = assign_with x fndt_errors_key fndt_errors_fields

  unfoldable pub ffd_version_fields : FfdVersion → Json
  unfolding safe_get ffd_versions
  ffd_version_fields a = object (
      field (utf8 "deviceFfd") (string (safe_get (ffd_versions x.numbers.ffd) a.device_ffd_version))
        (field (utf8 "deviceMinFfd")
          (string (safe_get (ffd_versions x.numbers.ffd) a.dev_min_ffd_version))
          (field (utf8 "deviceMaxFfd")
            (string (safe_get (ffd_versions x.numbers.ffd) a.dev_max_ffd_version))
            (field (utf8 "fnFfd") (string (safe_get (ffd_versions x.numbers.ffd) a.fn_ffd_version))
              (field (utf8 "fnMaxFfd")
                (string (safe_get (ffd_versions x.numbers.ffd) a.fn_max_ffd_version))
                (field (utf8 "ffd") (string (safe_get (ffd_versions x.numbers.ffd) a.ffd_version))
                  end))))))

  unfoldable pub assign_ffd_version : Fields → Result FfdVersion → Bool × Fields
  unfolding assign_with ffd_version_fields
  assign_ffd_version = assign_with x ffd_version_key ffd_version_fields

  unfoldable pub fw_version_fields : FwVersion → Json
  fw_version_fields a = object (
      field (utf8 "boot") (string (x.narrow a.boot_version)) (
        field (utf8 "configuration") (string (x.narrow a.configuration_version)) (
          field (utf8 "controlUnit") (string (x.narrow a.control_unit_version)) (
            field (utf8 "firmware") (string (x.narrow a.firmware_version)) (
              field (utf8 "release") (string (x.narrow a.release_version))
                (field (utf8 "templates") (string (x.narrow a.templates_version)) end))))))

  unfoldable pub assign_fw_version : Fields → Result FwVersion → Bool × Fields
  unfolding assign_with fw_version_fields
  assign_fw_version = assign_with x fw_version_key fw_version_fields
