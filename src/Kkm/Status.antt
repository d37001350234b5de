-- ===== src/Kkm/Status.antt =====
-- The queries of src/library/kkm/device.cpp, statement by statement. The comparison of shift numbers in
-- `getShiftState`, which is logged only, is left out.
use kkm_https_adapter.Kkm.Driver.{Driver, Param, Command, Constant, constant}
use kkm_https_adapter.Kkm.Results.{
  Status, ShiftState, ReceiptState, CashStat, FndtOfdExchangeStatus,
}
use kkm_https_adapter.Kkm.Method.{Method, ◌>>◌, put, attempt, read}

module _ (k : Driver) where
  unfoldable pub get_status : Method Status
  unfolding attempt
  get_status =
      put Param.data_type (constant Constant.dt_status)
      >> attempt k Command.query_data
      >> read (λ h a. record a {
        blocked = k.get_bool h Param.blocked;
        cash_drawer_opened = k.get_bool h Param.cashdrawer_opened;
        cover_opened = k.get_bool h Param.cover_opened;
        cut_error = k.get_bool h Param.cut_error;
        date_time = k.get_date_time h Param.date_time;
        document_number = k.get_int h Param.document_number;
        document_type = k.get_int h Param.document_type;
        fiscal = k.get_bool h Param.fiscal;
        fn_fiscal = k.get_bool h Param.fn_fiscal;
        fn_present = k.get_bool h Param.fn_present;
        invalid_fn = k.get_bool h Param.invalid_fn;
        logical_number = k.get_int h Param.logical_number;
        mode = k.get_int h Param.mode;
        model = k.get_int h Param.model;
        model_name = k.get_string h Param.model_name;
        operator_id = k.get_int h Param.operator_id;
        operator_registered = k.get_bool h Param.operator_registered;
        paper_near_end = k.get_bool h Param.paper_near_end;
        printer_connection_lost = k.get_bool h Param.printer_connection_lost;
        printer_error = k.get_bool h Param.printer_error;
        printer_overheat = k.get_bool h Param.printer_overheat;
        receipt_line_length = k.get_int h Param.receipt_line_length;
        receipt_line_length_pix = k.get_int h Param.receipt_line_length_pix;
        receipt_number = k.get_int h Param.receipt_number;
        receipt_paper_present = k.get_bool h Param.receipt_paper_present;
        receipt_sum = k.get_double h Param.receipt_sum;
        receipt_type = k.get_int h Param.receipt_type;
        serial_number = k.get_string h Param.serial_number;
        shift_number = k.get_int h Param.shift_number;
        shift_state = k.get_int h Param.shift_state;
        sub_mode = k.get_int h Param.submode;
      })

  unfoldable pub get_shift_state : Method ShiftState
  unfolding attempt
  get_shift_state =
      put Param.data_type (constant Constant.dt_shift_state)
      >> attempt k Command.query_data
      >> read (λ h a. record a {
        shift_number = k.get_int h Param.shift_number;
        shift_state = k.get_int h Param.shift_state;
        expiration_date_time = k.get_date_time h Param.date_time;
      })
      >> put Param.fn_data_type (constant Constant.fndt_shift)
      >> attempt k Command.fn_query_data
      >> read (λ h a. record a { receipt_number = k.get_int h Param.receipt_number })
      >> put Param.fn_data_type (constant Constant.fndt_documents_count_in_shift)
      >> attempt k Command.fn_query_data
      >> read (λ h a. record a { documents_count = k.get_int h Param.documents_count })

  unfoldable pub get_receipt_state : Method ReceiptState
  unfolding attempt
  get_receipt_state =
      put Param.data_type (constant Constant.dt_receipt_state)
      >> attempt k Command.query_data
      >> read (λ h a. record a {
        receipt_type = k.get_int h Param.receipt_type;
        receipt_number = k.get_int h Param.receipt_number;
        document_number = k.get_int h Param.document_number;
        sum = k.get_double h Param.receipt_sum;
        remainder = k.get_double h Param.remainder;
        change = k.get_double h Param.change;
      })

  unfoldable pub get_cash_stat : Method CashStat
  unfolding attempt
  get_cash_stat =
      put Param.data_type (constant Constant.dt_payment_sum)
      >> put Param.payment_type (constant Constant.pt_cash)
      >> put Param.receipt_type (constant Constant.rt_sell)
      >> attempt k Command.query_data
      >> read (λ h a. record a { sell_cash_sum = k.get_double h Param.sum })
      >> put Param.data_type (constant Constant.dt_payment_sum)
      >> put Param.payment_type (constant Constant.pt_cash)
      >> put Param.receipt_type (constant Constant.rt_sell_return)
      >> attempt k Command.query_data
      >> read (λ h a. record a { sell_return_cash_sum = k.get_double h Param.sum })
      >> put Param.data_type (constant Constant.dt_cashin_sum)
      >> attempt k Command.query_data
      >> read (λ h a. record a { cash_in_sum = k.get_double h Param.sum })
      >> put Param.data_type (constant Constant.dt_cashout_sum)
      >> attempt k Command.query_data
      >> read (λ h a. record a { cash_out_sum = k.get_double h Param.sum })
      >> put Param.data_type (constant Constant.dt_cashin_count)
      >> attempt k Command.query_data
      >> read (λ h a. record a { cash_in_count = k.get_int h Param.documents_count })
      >> put Param.data_type (constant Constant.dt_cashout_count)
      >> attempt k Command.query_data
      >> read (λ h a. record a { cash_out_count = k.get_int h Param.documents_count })
      >> put Param.data_type (constant Constant.dt_cash_sum)
      >> attempt k Command.query_data
      >> read (λ h a. record a { cash_sum = k.get_double h Param.sum })

  unfoldable pub get_fndt_ofd_exchange_status : Method FndtOfdExchangeStatus
  unfolding attempt
  get_fndt_ofd_exchange_status =
      put Param.fn_data_type (constant Constant.fndt_ofd_exchange_status)
      >> attempt k Command.fn_query_data
      >> read (λ h a. record a {
        exchange_status = k.get_int h Param.ofd_exchange_status;
        unsent_count = k.get_int h Param.documents_count;
        first_unsent_number = k.get_int h Param.document_number;
        ofd_message_read = k.get_bool h Param.ofd_message_read;
        first_unsent_date_time = k.get_date_time h Param.date_time;
        okp_date_time = k.get_date_time h Param.last_successful_okp;
      })
      >> put Param.data_type (constant Constant.dt_last_sent_ofd_document_date_time)
      >> attempt k Command.query_data
      >> read (λ h a. record a { last_sent_date_time = k.get_date_time h Param.date_time })
