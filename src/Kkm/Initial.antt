-- ===== src/Kkm/Initial.antt =====
-- The results of the queries as they are made, before the device fills them: the initial values in
-- src/library/kkm/callparams.h. The enums' numbers are the driver's.
use kkm_https_adapter.Base.{ℕ, true, false, [], replicate}
use kkm_https_adapter.Kkm.Driver.{wide, DateTime}
use kkm_https_adapter.Kkm.Details.{ReceiptType}
use kkm_https_adapter.Kkm.Labels.{Model, FfdNumber, unknown, ShiftPhase, DocumentType}
use kkm_https_adapter.Kkm.Results.{
  Result, Status, ShiftState, ReceiptState, CashStat, FndtOfdExchangeStatus, FndtFnInfo,
  FndtRegistrationInfo, FndtLastRegistration, FndtLastReceipt, FndtLastDocument, FndtErrors,
  FfdVersion, FwVersion,
}

-- The bits of the taxation types and of the agents.
pub data Flag : Type 0 where
  tt_osn tt_usn_income tt_usn_income_outcome tt_esn tt_patent at_bank_paying_agent
        at_bank_paying_subagent at_paying_agent at_paying_subagent at_attorney at_commission_agent
        at_another :
      Flag

-- The driver's constants.
pub record DriverNumbers : Type 0 where
  pub model : Model → ℕ
  pub ffd : FfdNumber → ℕ
  pub shift : ShiftPhase → ℕ
  pub receipt : ReceiptType → ℕ
  pub document : DocumentType → ℕ
  pub flag : Flag → ℕ

-- `std::tm {}`.
abbrev no_date : DateTime
no_date = replicate 9 0

-- `Result` by default: a success with the message "OK".
abbrev pub new_result : {A : Type 0} → A → Result A
new_result a = record { message = wide "OK"; success = true; rest = a }

module _ (numbers : DriverNumbers) where
  abbrev pub new_status : Status
  new_status = record {
    date_time = no_date;
    model_name = [];
    serial_number = [];
    receipt_sum = 0;
    document_number = 0;
    document_type = 0;
    logical_number = 0;
    mode = 0;
    model = 0;
    operator_id = 0;
    receipt_line_length = 0;
    receipt_line_length_pix = 0;
    receipt_number = 0;
    receipt_type = 0;
    shift_number = 0;
    shift_state = 0;
    sub_mode = 0;
    blocked = false;
    cash_drawer_opened = false;
    cover_opened = false;
    cut_error = false;
    fiscal = false;
    fn_fiscal = false;
    fn_present = false;
    invalid_fn = false;
    operator_registered = false;
    paper_near_end = false;
    printer_connection_lost = false;
    printer_error = false;
    printer_overheat = false;
    receipt_paper_present = false;
  }

  abbrev pub new_shift_state : ShiftState
  new_shift_state = record {
    expiration_date_time = no_date;
    shift_state = 0;
    documents_count = 0;
    receipt_number = 0;
    shift_number = 0;
  }

  abbrev pub new_receipt_state : ReceiptState
  new_receipt_state = record {
    change = 0;
    remainder = 0;
    sum = 0;
    document_number = 0;
    receipt_number = 0;
    receipt_type = 0;
  }

  abbrev pub new_cash_stat : CashStat
  new_cash_stat = record {
    cash_sum = 0;
    cash_in_sum = 0;
    cash_out_sum = 0;
    sell_cash_sum = 0;
    sell_return_cash_sum = 0;
    cash_in_count = 0;
    cash_out_count = 0;
  }

  abbrev pub new_fndt_ofd_exchange_status : FndtOfdExchangeStatus
  new_fndt_ofd_exchange_status = record {
    first_unsent_date_time = no_date;
    okp_date_time = no_date;
    last_sent_date_time = no_date;
    exchange_status = 0;
    first_unsent_number = 0;
    unsent_count = 0;
    ofd_message_read = false;
  }

  abbrev pub new_fndt_fn_info : FndtFnInfo
  new_fndt_fn_info = record {
    execution = [];
    keys_updater_server_uri = [];
    serial = [];
    version = [];
    flags = 0;
    state = 0;
    type = 0;
    critical_error = false;
    exhausted = false;
    memory_overflow = false;
    need_replacement = false;
    ofd_timeout = false;
  }

  abbrev pub new_fndt_registration_info : FndtRegistrationInfo
  new_fndt_registration_info = record {
    fns_url = [];
    organization_address = [];
    organization_vatin = [];
    organization_name = [];
    organization_email = [];
    payments_address = [];
    registration_number = [];
    machine_number = [];
    ofd_vatin = [];
    ofd_name = [];
    taxation_types = 0;
    agent_sign = 0;
    ffd_version = numbers.ffd unknown;
    auto_mode_sign = false;
    offline_mode_sign = false;
    encryption_sign = false;
    internet_sign = false;
    service_sign = false;
    bso_sign = false;
    lottery_sign = false;
    gambling_sign = false;
    excise_sign = false;
    machine_installation_sign = false;
    trade_marked_products = false;
    insurance_activity = false;
    pawn_shop_activity = false;
    vending = false;
    catering = false;
    wholesale = false;
  }

  abbrev pub new_fndt_last_registration : FndtLastRegistration
  new_fndt_last_registration = record {
    registration_date_time = no_date;
    document_number = 0;
    registrations_count = 0;
  }

  abbrev pub new_fndt_last_receipt : FndtLastReceipt
  new_fndt_last_receipt = record {
    document_date_time = no_date;
    fiscal_sign = [];
    receipt_sum = 0;
    document_number = 0;
  }

  abbrev pub new_fndt_last_document : FndtLastDocument
  new_fndt_last_document = record {
    document_date_time = no_date;
    fiscal_sign = [];
    document_number = 0;
  }

  abbrev pub new_fndt_errors : FndtErrors
  new_fndt_errors = record {
    success_date_time = no_date;
    fn_error_text = [];
    network_error_text = [];
    ofd_error_text = [];
    command_code = 0;
    document_number = 0;
    fn_error = 0;
    network_error = 0;
    ofd_error = 0;
    data_for_send_is_empty = false;
  }

  abbrev pub new_ffd_version : FfdVersion
  new_ffd_version = record {
    device_ffd_version = numbers.ffd unknown;
    dev_max_ffd_version = numbers.ffd unknown;
    dev_min_ffd_version = numbers.ffd unknown;
    fn_ffd_version = numbers.ffd unknown;
    fn_max_ffd_version = numbers.ffd unknown;
    ffd_version = numbers.ffd unknown;
  }

  abbrev pub new_fw_version : FwVersion
  new_fw_version = record {
    boot_version = [];
    configuration_version = [];
    control_unit_version = [];
    firmware_version = [];
    release_version = [];
    templates_version = [];
  }
