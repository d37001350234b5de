-- ===== src/Kkm/Tests.antt =====
-- A driver that can be run, and the theorems on the device with it.
use kkm_https_adapter.Base.{
  leb, length, replicate, Bool, true, false, not, [], ◌∷◌, ◌≡◌, refl, if◌then◌else◌,
}
use kkm_https_adapter.Kkm.Driver.{Driver, Command, History, call, wide, is_positive}
use kkm_https_adapter.Kkm.Results.{Result}
use kkm_https_adapter.Kkm.Details.{
  pos, PrintableText, OperatorDetails, ReceiptItemDetails, ReceiptType, ReceiptDetails,
  CloseDetails, cash,
}
use kkm_https_adapter.Kkm.Method.{going, device_of, attempt, demand}
use kkm_https_adapter.Kkm.Reports.{
  Settings, poll, attempts, sub_check_document_closed, sub_set_operator,
}
use kkm_https_adapter.Kkm.Reports.Polling.{ends_cancelled, sub_check_document_closed_late}
use kkm_https_adapter.Kkm.Printing.{
  double_clamp, sub_print_separator, sub_print_text, add_margins, add_separator,
}
use kkm_https_adapter.Kkm.Receipt.{
  sub_register_receipt, register_items, register_item, open_receipt, print_receipt_texts,
  register_payment, close_receipt,
}
use kkm_https_adapter.Kkm.Receipt.Items.{register_items_lem, at_history, with_items}
use kkm_https_adapter.Kkm.Shift.{close_shift, report_x, reset_state}
use kkm_https_adapter.Kkm.Shift.Failures.{ends_reported, report_x-reports}
use kkm_https_adapter.Kkm.FirstFailure.{
  EndsTelling, first_error, shift-EndsTelling, sub_register_receipt-EndsTelling,
}
use kkm_https_adapter.Kkm.Connection.{destroy, new_device}
use kkm_https_adapter.Kkm.OpenReceipt.{
  pending, IsTracked, sub_register_receipt-IsTracked, destroy-cancels,
}
use kkm_https_adapter.Kkm.Success.{
  all_succeeded, ends_honest, sub_register_receipt-honest, shift-honest,
}

-- The last call is a registration.
abbrev is_registration : History → Bool
is_registration (call Command.registration ∷ h) = true
is_registration _ = false

-- Everything succeeds but, if so wanted, the registration of an item.
abbrev driver : Bool → Driver
driver refuses = record {
  succeeds = λ h. if refuses then not (is_registration h) else true;
  is_opened = λ h. true;
  error_description = λ h. wide "no";
  get_int = λ h p. 1;
  get_bool = λ h p. true;
  get_double = λ h p. 4607182418800017408;
  get_string = λ h p. [];
  get_date_time = λ h p. [];
  get_byte_array = λ h p. [];
  value_of = λ c. 0;
}

abbrev settings : Settings
settings = record {
  default_line_length = 42;
  document_closing_timeout = 1000;
  customer_account_field = [];
}

abbrev operator : OperatorDetails
operator = record { electronically = false; operator_name = wide "A"; operator_inn = [] }

abbrev no_text : PrintableText
no_text = record {
  content = [];
  margin_outer = pos 0;
  margin_inner = pos 1;
  center = false;
  magnified = false;
  separated = false;
}

abbrev item : ReceiptItemDetails
item = record { commodity_name = wide "B"; price = 1; quantity = 1; unit = 0; tax = 1 }

abbrev receipt : ReceiptDetails
receipt = record {
  operator = operator;
  text = no_text;
  header_text = no_text;
  footer_text = no_text;
  seller_email = [];
  customer_account = [];
  customer_contact = [];
  customer_name = [];
  customer_inn = [];
  customer_birthdate = [];
  customer_citizenship = [];
  customer_document_code = [];
  customer_document_data = [];
  customer_address = [];
  electro_payment_id = [];
  electro_payment_add_info = [];
  items = item ∷ [];
  payment_sum = 1;
  payment_type = cash;
  electro_payment_method = 0;
  customer_data_is_present = false;
  seller_data_is_present = false;
  electro_payment_info = false;
}

abbrev closing : CloseDetails
closing = record { operator = operator; close_shift = true; cash_out = true }

abbrev fresh : Result Unit
fresh = record { message = wide "OK"; success = true; rest = tt }

abbrev broken : Result Unit
broken = record { message = wide "no"; success = false; rest = tt }

abbrev pended : Bool → Bool
pended refuses =
    pending (driver refuses)
      (device_of (
        sub_register_receipt (driver refuses) settings ReceiptType.sell receipt fresh
          new_device)).history

open_test : (pended false ≡ false) × (pended true ≡ true)
unfolding sub_register_receipt open_receipt print_receipt_texts register_items register_item
    register_payment close_receipt sub_check_document_closed sub_set_operator sub_print_text
    sub_print_separator double_clamp poll attempts attempt demand pending is_positive add_margins
    add_separator
open_test = (refl, refl)

sub_register_receipt-IsTracked_example : IsTracked (driver true) (
    device_of
      (sub_register_receipt (driver true) settings ReceiptType.sell receipt fresh new_device))
unfolding pending
sub_register_receipt-IsTracked_example =
    sub_register_receipt-IsTracked (driver true) settings ReceiptType.sell receipt fresh new_device
      refl

destroy-cancels_example :
    let after =
      device_of
        (sub_register_receipt (driver true) settings ReceiptType.sell receipt fresh new_device) in
    (destroy after).history
    ≡ call Command.close_device
      ∷ (if pending (driver true) after.history
          then call Command.cancel_receipt ∷ after.history
          else after.history)
unfolding pending
destroy-cancels_example =
    destroy-cancels (driver true) settings ReceiptType.sell receipt fresh new_device refl

sub_register_receipt-honest_example :
    ends_honest
      (driver false)
      (sub_register_receipt (driver false) settings ReceiptType.sell receipt fresh new_device)
    ≡ true
unfolding all_succeeded
sub_register_receipt-honest_example =
    sub_register_receipt-honest (driver false) settings ReceiptType.sell receipt fresh new_device
      refl

shift-honest_example :
    (ends_honest (driver false) (close_shift (driver false) settings closing fresh new_device)
      ≡ true)
    × (ends_honest (driver false) (report_x (driver false) settings closing fresh new_device)
        ≡ true)
    × (ends_honest (driver false) (reset_state (driver false) settings closing fresh new_device)
        ≡ true)
unfolding all_succeeded
shift-honest_example = shift-honest (driver false) settings closing fresh new_device refl

report_x-reports_example :
    ends_reported (report_x (driver false) settings closing broken new_device) ≡ true
report_x-reports_example = report_x-reports (driver false) settings closing broken new_device

register_items_lem_example :
    register_items (driver false) (item ∷ item ∷ []) fresh new_device
    ≡ going fresh (at_history new_device (with_items (item ∷ item ∷ []) []))
register_items_lem_example =
    register_items_lem (driver false) (item ∷ item ∷ []) fresh new_device refl

-- The last of the calls is a poll, and as many calls were made as the timeout allows, and one.
abbrev sluggish : Driver
sluggish = record (driver false) { succeeds = λ h. leb 6 (length h) }

late_test : sluggish.succeeds (replicate 6 (call Command.check_document_closed)) ≡ true
late_test = refl

sub_check_document_closed_late_example :
    ends_cancelled (sub_check_document_closed sluggish settings fresh new_device) ≡ true
unfolding attempts
sub_check_document_closed_late_example =
    sub_check_document_closed_late sluggish settings fresh new_device refl

abbrev is_payout : History → Bool
is_payout (call Command.cash_outcome ∷ h) = true
is_payout _ = false

-- Everything succeeds but the payout.
abbrev empty_drawer : Driver
empty_drawer = record (driver false) { succeeds = λ h. not (is_payout h) }

shift-EndsTelling_example :
    EndsTelling empty_drawer (close_shift empty_drawer settings closing fresh new_device)
    × EndsTelling empty_drawer (report_x empty_drawer settings closing fresh new_device)
    × EndsTelling empty_drawer (reset_state empty_drawer settings closing fresh new_device)
unfolding first_error
shift-EndsTelling_example =
    shift-EndsTelling empty_drawer fresh new_device refl refl settings closing

sub_register_receipt-EndsTelling_example :
    EndsTelling
      (driver true)
      (sub_register_receipt (driver true) settings ReceiptType.sell receipt fresh new_device)
unfolding first_error
sub_register_receipt-EndsTelling_example =
    sub_register_receipt-EndsTelling (driver true) fresh new_device refl refl settings
      ReceiptType.sell receipt
