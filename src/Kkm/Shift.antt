-- ===== src/Kkm/Shift.antt =====
-- Cash and shifts in src/library/kkm/device.cpp.
pub mod Failures
use kkm_https_adapter.Base.{ℕ, Double, Bool, true, false, not, ◌==◌, if◌then◌else◌}
use kkm_https_adapter.Kkm.Driver.{
  Driver, Param, Command, Constant, constant, double, flag, is_positive,
}
use kkm_https_adapter.Kkm.Details.{OperatorDetails, CashDetails, CloseDetails}
use kkm_https_adapter.Kkm.Method.{Method, ◌>>◌, put, attempt, proceed, when, asking, invoke}
use kkm_https_adapter.Kkm.Reports.{Settings, sub_check_document_closed, sub_set_operator}

module _ (k : Driver) (settings : Settings) where
  unfoldable pub register_cash_in : CashDetails → Method Unit
  unfolding attempt sub_set_operator
  register_cash_in details =
      sub_set_operator k settings details.operator
      >> put Param.sum (double details.cash_sum)
      >> put Param.document_electronically (flag details.operator.electronically)
      >> attempt k Command.cash_income

  unfoldable pub register_cash_out : CashDetails → Method Unit
  unfolding attempt sub_set_operator
  register_cash_out details =
      sub_set_operator k settings details.operator
      >> put Param.sum (double details.cash_sum)
      >> put Param.document_electronically (flag details.operator.electronically)
      >> attempt k Command.cash_outcome

  abbrev pub close_unless_closed : OperatorDetails → Bool → Method Unit
  close_unless_closed details closed = when (not closed) (
      sub_set_operator k settings details
      >> put Param.report_type (constant Constant.rt_close_shift)
      >> attempt k Command.report
      >> sub_check_document_closed k settings)

  unfoldable pub sub_close_shift : OperatorDetails → Method Unit
  unfolding attempt sub_set_operator sub_check_document_closed
  sub_close_shift details =
      put Param.data_type (constant Constant.dt_shift_state)
      >> attempt k Command.query_data
      >> asking (λ h. k.get_int h Param.shift_state == k.value_of Constant.ss_closed)
          (close_unless_closed details)

  abbrev pub pay_out : OperatorDetails → Double → Method Unit
  pay_out details cash_sum = when (is_positive cash_sum) (
      sub_set_operator k settings details
      >> put Param.sum (double cash_sum)
      >> put Param.document_electronically (flag details.electronically)
      >> attempt k Command.cash_outcome)

  unfoldable pub sub_cash_out : OperatorDetails → Method Unit
  unfolding attempt sub_set_operator is_positive
  sub_cash_out details =
      put Param.data_type (constant Constant.dt_cash_sum)
      >> attempt k Command.query_data
      >> asking (λ h. k.get_double h Param.sum) (pay_out details)

  unfoldable pub close_shift : CloseDetails → Method Unit
  unfolding sub_cash_out sub_close_shift
  close_shift details =
      when details.cash_out (invoke (sub_cash_out details.operator))
      >> invoke (sub_close_shift details.operator)

  unfoldable pub report_x : CloseDetails → Method Unit
  unfolding attempt sub_cash_out sub_close_shift
  report_x details =
      when details.cash_out (invoke (sub_cash_out details.operator))
      >> when details.close_shift (invoke (sub_close_shift details.operator))
      >> put Param.report_type (constant Constant.rt_x)
      >> attempt k Command.report

  unfoldable pub reset_state : CloseDetails → Method Unit
  unfolding attempt sub_cash_out sub_close_shift
  reset_state details =
      put Param.data_type (constant Constant.dt_receipt_state)
      >> attempt k Command.query_data
      >> asking (λ h. k.get_int h Param.receipt_type == k.value_of Constant.rt_closed)
          (λ closed. when (not closed) (attempt k Command.cancel_receipt))
      >> when details.cash_out (invoke (sub_cash_out details.operator))
      >> when details.close_shift (invoke (sub_close_shift details.operator))
