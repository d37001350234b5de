-- ===== src/Kkm/Results.antt =====
-- The results of the queries: the structs derived from `Result` in src/library/kkm/callparams.h.
use kkm_https_adapter.Base.{ℕ, Double, Bool}
use kkm_https_adapter.Kkm.Driver.{WideText, DateTime}

-- `Result` with the fields that a derived struct adds to it.
pub record Result (A : Type 0) : Type 0 where
  pub message : WideText
  pub success : Bool
  pub rest : A

pub record Status : Type 0 where
  pub date_time : DateTime
  pub model_name : WideText
  pub serial_number : WideText
  pub receipt_sum : Double
  pub document_number : ℕ
  pub document_type : ℕ
  pub logical_number : ℕ
  pub mode : ℕ
  pub model : ℕ
  pub operator_id : ℕ
  pub receipt_line_length : ℕ
  pub receipt_line_length_pix : ℕ
  pub receipt_number : ℕ
  pub receipt_type : ℕ
  pub shift_number : ℕ
  pub shift_state : ℕ
  pub sub_mode : ℕ
  pub blocked : Bool
  pub cash_drawer_opened : Bool
  pub cover_opened : Bool
  pub cut_error : Bool
  pub fiscal : Bool
  pub fn_fiscal : Bool
  pub fn_present : Bool
  pub invalid_fn : Bool
  pub operator_registered : Bool
  pub paper_near_end : Bool
  pub printer_connection_lost : Bool
  pub printer_error : Bool
  pub printer_overheat : Bool
  pub receipt_paper_present : Bool

pub record ShiftState : Type 0 where
  pub expiration_date_time : DateTime
  pub shift_state : ℕ
  pub documents_count : ℕ
  pub receipt_number : ℕ
  pub shift_number : ℕ

pub record ReceiptState : Type 0 where
  pub change : Double
  pub remainder : Double
  pub sum : Double
  pub document_number : ℕ
  pub receipt_number : ℕ
  pub receipt_type : ℕ

pub record CashStat : Type 0 where
  pub cash_sum : Double
  pub cash_in_sum : Double
  pub cash_out_sum : Double
  pub sell_cash_sum : Double
  pub sell_return_cash_sum : Double
  pub cash_in_count : ℕ
  pub cash_out_count : ℕ

pub record FndtOfdExchangeStatus : Type 0 where
  pub first_unsent_date_time : DateTime
  pub okp_date_time : DateTime
  pub last_sent_date_time : DateTime
  pub exchange_status : ℕ
  pub first_unsent_number : ℕ
  pub unsent_count : ℕ
  pub ofd_message_read : Bool

pub record FndtFnInfo : Type 0 where
  pub execution : WideText
  pub keys_updater_server_uri : WideText
  pub serial : WideText
  pub version : WideText
  pub flags : ℕ
  pub state : ℕ
  pub type : ℕ
  pub critical_error : Bool
  pub exhausted : Bool
  pub memory_overflow : Bool
  pub need_replacement : Bool
  pub ofd_timeout : Bool

pub record FndtRegistrationInfo : Type 0 where
  pub fns_url : WideText
  pub organization_address : WideText
  pub organization_vatin : WideText
  pub organization_name : WideText
  pub organization_email : WideText
  pub payments_address : WideText
  pub registration_number : WideText
  pub machine_number : WideText
  pub ofd_vatin : WideText
  pub ofd_name : WideText
  pub taxation_types : ℕ
  pub agent_sign : ℕ
  pub ffd_version : ℕ
  pub auto_mode_sign : Bool
  pub offline_mode_sign : Bool
  pub encryption_sign : Bool
  pub internet_sign : Bool
  pub service_sign : Bool
  pub bso_sign : Bool
  pub lottery_sign : Bool
  pub gambling_sign : Bool
  pub excise_sign : Bool
  pub machine_installation_sign : Bool
  pub trade_marked_products : Bool
  pub insurance_activity : Bool
  pub pawn_shop_activity : Bool
  pub vending : Bool
  pub catering : Bool
  pub wholesale : Bool

pub record FndtLastRegistration : Type 0 where
  pub registration_date_time : DateTime
  pub document_number : ℕ
  pub registrations_count : ℕ

pub record FndtLastReceipt : Type 0 where
  pub document_date_time : DateTime
  pub fiscal_sign : WideText
  pub receipt_sum : Double
  pub document_number : ℕ

pub record FndtLastDocument : Type 0 where
  pub document_date_time : DateTime
  pub fiscal_sign : WideText
  pub document_number : ℕ

pub record FndtErrors : Type 0 where
  pub success_date_time : DateTime
  pub fn_error_text : WideText
  pub network_error_text : WideText
  pub ofd_error_text : WideText
  pub command_code : ℕ
  pub document_number : ℕ
  pub fn_error : ℕ
  pub network_error : ℕ
  pub ofd_error : ℕ
  pub data_for_send_is_empty : Bool

pub record FfdVersion : Type 0 where
  pub device_ffd_version : ℕ
  pub dev_max_ffd_version : ℕ
  pub dev_min_ffd_version : ℕ
  pub fn_ffd_version : ℕ
  pub fn_max_ffd_version : ℕ
  pub ffd_version : ℕ

pub record FwVersion : Type 0 where
  pub boot_version : WideText
  pub configuration_version : WideText
  pub control_unit_version : WideText
  pub firmware_version : WideText
  pub release_version : WideText
  pub templates_version : WideText
