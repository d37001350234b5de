-- ===== src/Kkm/Reports.antt =====
-- The reports of src/library/kkm/device.cpp, `subCheckDocumentClosed` and `subSetOperator`. The
-- pause between two polls is left out; the number of polls is the closing timeout by the sleep
-- quantum.
pub mod Polling
use kkm_https_adapter.Base.{ℕ, zero, suc, ◌/◌, false, not, ◌||◌, ◌==◌, if◌then◌else◌, is_nil}
use kkm_https_adapter.Kkm.Driver.{
  WideText, wide, Driver, Param, Command, Constant, constant, text, call, set_param,
}
use kkm_https_adapter.Kkm.Details.{OperatorDetails}
use kkm_https_adapter.Kkm.Method.{
  Device, Method, going, ◌>>◌, put, attempt, demand, when, issue, fail_with,
}

-- `s_defaultLineLength`, `s_documentClosingTimeout` in milliseconds and `s_customerAccountField` of
-- src/library/kkm/variables.h.
pub record Settings : Type 0 where
  pub default_line_length : ℕ
  pub document_closing_timeout : ℕ
  pub customer_account_field : WideText

abbrev pub sleep_quantum : ℕ
sleep_quantum = 200

unfoldable pub attempts : Settings → ℕ
attempts settings = settings.document_closing_timeout / sleep_quantum

unfoldable pub checking_error : WideText
checking_error = wide "Не удалось проверить закрытие документа"

-- `for (i = …; command() < 0 && i; --i)`: the `i` that it leaves, and the device.
unfoldable pub poll : Driver → Command → ℕ → Device → ℕ × Device
poll k c zero d = (zero, issue (call c) d)
poll k c (suc i) d =
    let after = issue (call c) d in
    let rest = poll k c i after in if k.succeeds after.history then (suc i, after) else rest

module _ (k : Driver) (settings : Settings) where
  abbrev pub continue_printing : {A : Type 0} → Method A
  continue_printing r d =
      let (i, e) = poll k Command.continue_print (attempts settings) d in
      if i == 0 then fail_with checking_error r e else going r e

  abbrev pub checked : {A : Type 0} → ℕ → Method A
  checked i r d =
      if (i == 0) || not (k.get_bool (d.history) Param.document_closed)
      then fail_with checking_error r (issue (call Command.cancel_receipt) d)
      else if not (k.get_bool (d.history) Param.document_printed)
      then continue_printing r d
      else going r d

  unfoldable pub sub_check_document_closed : {A : Type 0} → Method A
  unfolding poll attempts checking_error
  sub_check_document_closed r d =
      let (i, e) = poll k Command.check_document_closed (attempts settings) d in checked i r e

  unfoldable pub sub_set_operator : {A : Type 0} → OperatorDetails → Method A
  unfolding demand
  sub_set_operator details =
      put (Param.requisite 1021) (text details.operator_name)
      >> when (not (is_nil details.operator_inn))
          (put (Param.requisite 1203) (text details.operator_inn))
      >> demand k Command.operator_login

  abbrev print_report : {A : Type 0} → Constant → Method A
  print_report kind = put Param.report_type (constant kind) >> attempt k Command.report

  -- It assigns the message and the failure itself, and leaves the driver's error as it is.
  unfoldable pub print_demo : Method Unit
  print_demo r d =
      let after =
        issue (call Command.report)
          (issue (set_param Param.report_type (constant Constant.rt_kkt_demo)) d) in
      going
        (if k.succeeds after.history
          then r
          else record r { message = k.error_description after.history; success = false })
        after

  unfoldable pub print_info : Method Unit
  unfolding attempt
  print_info = print_report Constant.rt_kkt_info

  unfoldable pub print_fn_registrations : Method Unit
  unfolding attempt
  print_fn_registrations = print_report Constant.rt_fn_registrations

  unfoldable pub print_ofd_exchange_status : Method Unit
  unfolding attempt sub_check_document_closed
  print_ofd_exchange_status =
      print_report Constant.rt_ofd_exchange_status >> sub_check_document_closed

  unfoldable pub print_ofd_test : Method Unit
  unfolding attempt
  print_ofd_test = print_report Constant.rt_ofd_test

  unfoldable pub print_close_shift_reports : Method Unit
  unfolding attempt
  print_close_shift_reports = print_report Constant.rt_close_shift_reports

  unfoldable pub print_last_document : Method Unit
  unfolding attempt
  print_last_document = print_report Constant.rt_last_document
