-- ===== src/Kkm/Receipt.antt =====
-- `subRegisterReceipt` of src/library/kkm/device.cpp and what it calls.
pub mod Preserved
pub mod Items
use kkm_https_adapter.Base.{
  ℕ, Bool, true, false, not, ◌&&◌, ◌||◌, List, [], ◌∷◌, ◌++◌, if◌then◌else◌, is_nil,
}
use kkm_https_adapter.Kkm.Driver.{
  WideText, wide, Driver, Param, Command, Constant, Value, constant, number, double, flag, text,
  byte_array, is_positive,
}
use kkm_https_adapter.Kkm.Details.{
  pos, negsuc, ReceiptDetails, ReceiptItemDetails, ReceiptType, receipt_constant, payment_constant,
  has_content, auto, pre, post, PrintableText,
}
use kkm_https_adapter.Kkm.Method.{
  Method, ◌>>◌, put, attempt, demand, proceed, when, asking, raise, need_to_cancel,
}
use kkm_https_adapter.Kkm.Printing.{sub_print_separator, sub_print_text, plain}
use kkm_https_adapter.Kkm.Reports.{Settings, sub_check_document_closed, sub_set_operator}

unfoldable pub not_implemented_text : WideText
not_implemented_text = wide "Не реализовано"

unfoldable pub requires_items_text : WideText
requires_items_text = wide "Не предоставлено ни одной позиции"

unfoldable pub type_sell : WideText
type_sell = wide "ПРИХОД"

unfoldable pub type_sell_return : WideText
type_sell_return = wide "ВОЗВРАТ ПРИХОДА"

-- `if (!value.empty()) { setParam(tag, value); }`.
abbrev pub put_text : {A : Type 0} → ℕ → WideText → Method A
put_text tag value = when (not (is_nil value)) (put (Param.requisite tag) (text value))

abbrev pub form_tlv : {A : Type 0} → Driver → ℕ → Method A
form_tlv k tag =
    demand k Command.util_form_tlv
    >> asking (λ h. k.get_byte_array h Param.tag_value)
        (λ info. put (Param.requisite tag) (byte_array info))

-- `hasRequisite1256`.
unfoldable pub has_requisite_1256 : ReceiptDetails → Bool
has_requisite_1256 details =
    not (is_nil details.customer_name)
    || not (is_nil details.customer_inn)
    || not (is_nil details.customer_birthdate)
    || not (is_nil details.customer_citizenship)
    || not (is_nil details.customer_document_code)
    || not (is_nil details.customer_document_data)
    || not (is_nil details.customer_address)

unfoldable pub sub_set_customer : {A : Type 0} → Driver → Settings → ReceiptDetails → Method A
unfolding demand has_requisite_1256
sub_set_customer k settings details =
    put_text 1227 details.customer_name
    >> put_text 1228 details.customer_inn
    >> put_text 1243 details.customer_birthdate
    >> put_text 1244 details.customer_citizenship
    >> put_text 1245 details.customer_document_code
    >> put_text 1246 details.customer_document_data
    >> put_text 1254 details.customer_address
    >> when (has_requisite_1256 details) (form_tlv k 1256)
    >> when (not (is_nil details.customer_account)) (
        put (Param.requisite 1085) (text settings.customer_account_field)
        >> put (Param.requisite 1086) (text (wide "  " ++ details.customer_account))
        >> form_tlv k 1084)
    >> put_text 1227 details.customer_name
    >> put_text 1228 details.customer_inn
    >> put_text 1008 details.customer_contact

-- The source tests the customer's number here, not the seller's address.
unfoldable pub sub_set_seller : {A : Type 0} → ReceiptDetails → Method A
sub_set_seller details =
    when (not (is_nil details.customer_inn))
      (put (Param.requisite 1117) (text details.seller_email))

unfoldable pub register_item : {A : Type 0} → Driver → ReceiptItemDetails → Method A
unfolding attempt
register_item k item =
    put Param.commodity_name (text item.commodity_name)
    >> put Param.price (double item.price)
    >> put Param.quantity (double item.quantity)
    >> put Param.measurement_unit (number item.unit)
    >> put Param.tax_type (number item.tax)
    >> attempt k Command.registration

-- The loop over the items.
unfoldable pub register_items : {A : Type 0} → Driver → List ReceiptItemDetails → Method A
unfolding register_item
register_items k [] = proceed
register_items k (item ∷ items) = register_item k item >> register_items k items

unfoldable pub register_payment : {A : Type 0} → Driver → ReceiptDetails → Method A
unfolding attempt is_positive
register_payment k details = when (is_positive details.payment_sum) (
    put Param.payment_type (constant (payment_constant details.payment_type))
    >> put Param.payment_sum (double details.payment_sum)
    >> attempt k Command.payment
    >> when details.electro_payment_info (
        put Param.payment_type (constant Constant.pt_add_info)
        >> put Param.payment_sum (double details.payment_sum)
        >> put Param.electronically_payment_method (number details.electro_payment_method)
        >> put Param.electronically_id (text details.electro_payment_id)
        >> when (not (is_nil details.electro_payment_add_info))
            (put Param.electronically_add_info (text details.electro_payment_add_info))
        >> attempt k Command.payment))

abbrev pub is_sale : ReceiptType → Bool
is_sale ReceiptType.sell = true
is_sale ReceiptType.sell_return = true
is_sale _ = false

abbrev pub type_title : ReceiptType → PrintableText
type_title ReceiptType.sell = plain type_sell false false (pos 0)
type_title _ = plain type_sell_return false false (pos 0)

abbrev pub top_separator : PrintableText → Bool
top_separator t = not (has_content t) || not t.separated || t.magnified

module _ (k : Driver) (settings : Settings) where
  -- Up to the opening of the receipt.
  unfoldable pub open_receipt : ReceiptType → ReceiptDetails → Method Unit
  unfolding attempt sub_set_operator sub_set_customer sub_set_seller sub_print_text
  open_receipt type details =
      when (has_content details.header_text) (sub_print_text k details.header_text pre)
      >> sub_set_operator k settings details.operator
      >> when details.customer_data_is_present (sub_set_customer k settings details)
      >> when details.seller_data_is_present (sub_set_seller details)
      >> put Param.receipt_type (constant (receipt_constant type))
      >> put Param.receipt_electronically (flag details.operator.electronically)
      >> attempt k Command.open_receipt

  -- The texts of an open receipt.
  unfoldable pub print_receipt_texts : ReceiptType → ReceiptDetails → Method Unit
  unfolding sub_print_text sub_print_separator type_sell type_sell_return
  print_receipt_texts type details =
      when (has_content details.text) (sub_print_text k details.text auto)
      >> when (top_separator details.text) (sub_print_separator k (pos 0) (negsuc 0))
      >> sub_print_text k (type_title type) auto
      >> sub_print_separator k (pos 0) (negsuc 0)
      >> when (has_content details.footer_text) (sub_print_text k details.footer_text post)

  unfoldable pub close_receipt : ReceiptDetails → Method Unit
  unfolding attempt
  close_receipt details =
      put Param.payment_type (constant (payment_constant details.payment_type))
      >> attempt k Command.close_receipt

  unfoldable pub sub_register_receipt : ReceiptType → ReceiptDetails → Method Unit
  unfolding open_receipt print_receipt_texts register_items register_payment close_receipt
      sub_check_document_closed not_implemented_text requires_items_text
  sub_register_receipt type details =
      when (not (is_sale type)) (raise not_implemented_text)
      >> when (is_nil details.items) (raise requires_items_text)
      >> open_receipt type details
      >> need_to_cancel true
      >> print_receipt_texts type details
      >> register_items k details.items
      >> register_payment k details
      >> close_receipt details
      >> need_to_cancel false
      >> sub_check_document_closed k settings

  unfoldable pub register_sell : ReceiptDetails → Method Unit
  unfolding sub_register_receipt
  register_sell details = sub_register_receipt ReceiptType.sell details

  unfoldable pub register_sell_return : ReceiptDetails → Method Unit
  unfolding sub_register_receipt
  register_sell_return details = sub_register_receipt ReceiptType.sell_return details
