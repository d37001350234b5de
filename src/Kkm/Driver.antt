-- ===== src/Kkm/Driver.antt =====
-- The driver of the cash register, Atol's `Fptr` of fptr10.h, as src/library/kkm calls it: the
-- parameters, constants and commands that src/library/kkm/device.cpp names. What the driver answers
-- is a function of all the calls that it has had, the latest first. A
-- `std::tm` the list of its fields, an enum that is cast from an integer is that integer.
pub use kkm_https_adapter.Base.{wide}
use kkm_https_adapter.Base.{ℕ, Bool, List, Bytes, ◌&&◌, ltb, leb, Double}

abbrev pub WideText : Type 0
WideText = List ℕ

-- `0 < x`: neither zero, nor a number with the sign bit, nor a NaN.
unfoldable pub is_positive : Double → Bool
is_positive x = ltb 0 x && leb x 0x7ff0000000000000

abbrev pub DateTime : Type 0
DateTime = List ℕ

-- `LIBFPTR_PARAM_…`, and the requisites, which the source gives by their numbers.
pub data Param : Type 0 where
  alignment blocked cashdrawer_opened catering change command_code commodity_name cover_opened
        cut_error data_for_send_is_empty data_type date_time defer device_ffd_version
        device_max_ffd_version device_min_ffd_version document_closed document_electronically
        document_number document_printed document_type documents_count electronically_add_info
        electronically_id electronically_payment_method ffd_version fiscal fiscal_sign
        fn_contains_keys_updater_server_uri fn_critical_error fn_data_type fn_error fn_error_text
        fn_execution fn_ffd_version fn_fiscal fn_flags fn_keys_updater_server_uri fn_max_ffd_version
        fn_memory_overflow fn_need_replacement fn_ofd_timeout fn_present fn_resource_exhausted
        fn_state fn_type fn_version font_double_width insurance_activity invalid_fn
        last_successful_okp logical_number measurement_unit mode model model_name network_error
        network_error_text ofd_error ofd_error_text ofd_exchange_status ofd_message_read operator_id
        operator_registered paper_near_end pawn_shop_activity payment_sum payment_type price
        print_footer printer_connection_lost printer_error printer_overheat quantity
        receipt_electronically receipt_line_length receipt_line_length_pix receipt_number
        receipt_paper_present receipt_sum receipt_type registrations_count remainder report_type
        serial_number shift_number shift_state submode sum tag_value tax_type text text_wrap
        trade_marked_products unit_release_version unit_type unit_version vending wholesale :
      Param
  requisite : ℕ → Param

-- The other `LIBFPTR_…` constants.
pub data Constant : Type 0 where
  alignment_center defer_none defer_post defer_pre dt_cash_sum dt_cashin_count dt_cashin_sum
        dt_cashout_count dt_cashout_sum dt_last_sent_ofd_document_date_time dt_payment_sum
        dt_receipt_line_length dt_receipt_state dt_serial_number dt_shift_state dt_status
        dt_unit_version fndt_documents_count_in_shift fndt_errors fndt_ffd_versions fndt_fn_info
        fndt_last_document fndt_last_receipt fndt_last_registration fndt_ofd_exchange_status
        fndt_reg_info fndt_shift pt_add_info pt_cash pt_electronically rt_buy rt_buy_correction
        rt_buy_return rt_buy_return_correction rt_close_shift rt_close_shift_reports rt_closed
        rt_fn_registrations rt_kkt_demo rt_kkt_info rt_last_document rt_ofd_exchange_status
        rt_ofd_test rt_sell rt_sell_correction rt_sell_return rt_sell_return_correction rt_x
        ss_closed tw_words ut_boot ut_configuration ut_control_unit ut_firmware ut_templates :
      Constant

pub data Value : Type 0 where
  constant : Constant → Value
  number : ℕ → Value
  double : Double → Value
  flag : Bool → Value
  text : WideText → Value
  byte_array : Bytes → Value

pub data Command : Type 0 where
  open_device close_device query_data fn_query_data operator_login util_form_tlv
        begin_nonfiscal_document end_nonfiscal_document print_text print_cliche report cash_income
        cash_outcome open_receipt registration payment close_receipt cancel_receipt
        check_document_closed continue_print apply_single_settings :
      Command

-- `LIBFPTR_SETTING_…`.
pub data Setting : Type 0 where
  model_setting time_zone_setting ofd_channel_setting port_setting com_file_setting
        baudrate_setting :
      Setting

pub data Event : Type 0 where
  set_setting : Setting → WideText → Event
  set_param : Param → Value → Event
  call : Command → Event
  reset_error : Event

abbrev pub History : Type 0
History = List Event

-- `succeeds` is that the last call did not return a negative number.
pub record Driver : Type 0 where
  pub succeeds : History → Bool
  pub is_opened : History → Bool
  pub error_description : History → WideText
  pub get_int : History → Param → ℕ
  pub get_bool : History → Param → Bool
  pub get_double : History → Param → Double
  pub get_string : History → Param → WideText
  pub get_date_time : History → Param → DateTime
  pub get_byte_array : History → Param → Bytes
  pub value_of : Constant → ℕ
