-- ===== src/Kkm/Import/Receipt.antt =====
-- The receipt: `assign` to `ReceiptDetails` in src/library/kkm/impex.cpp, and the constructor of
-- `ReceiptItemDetails` in src/library/kkm/callparams.h.
pub mod Item
pub mod ItemLimits
pub mod Steps
pub mod Whole
pub mod Payment
use kkm_https_adapter.Base.{
  ℕ, Bool, true, false, not, ◌||◌, List, [], ◌∷◌, Option, none, some, Bytes, utf8, is_nil, ok, err,
  Double,
}
use kkm_https_adapter.Text.Filters.{length_between, max_length}
use kkm_https_adapter.Http.JsonValue.{Json, Items}
use kkm_https_adapter.Json.{
  Read, ◌>>=◌, to_bool, to_text, to_wide_text, key_handled, key_value, key_filtered, key_mapped,
}
use kkm_https_adapter.Kkm.Driver.{wide}
use kkm_https_adapter.Kkm.Details.{
  OperatorDetails, PrintableText, ReceiptItemDetails, ReceiptDetails, pos, cash,
}
use kkm_https_adapter.Kkm.Tables.{no, tax_cast_map}
use kkm_https_adapter.Kkm.Import.{
  Setup, required, settled, requires_property, assign_operator, text_at, flag_at,
}
use kkm_https_adapter.Kkm.Import.Document.{array_at, max_text_length}
use Item.{read_items}
use Payment.{read_payment}

abbrev plain_text : PrintableText
plain_text = record {
  content = [];
  margin_outer = pos 0;
  margin_inner = pos 1;
  center = false;
  magnified = false;
  separated = false;
}

-- A receipt with the fields as they are initialised.
abbrev pub new_receipt : OperatorDetails → ReceiptDetails
new_receipt operator = record {
  operator = operator;
  text = plain_text;
  header_text = plain_text;
  footer_text = plain_text;
  seller_email = [];
  customer_account = [];
  customer_contact = [];
  customer_name = [];
  customer_inn = [];
  customer_birthdate = [];
  customer_citizenship = [];
  customer_document_code = [];
  customer_document_data = [];
  customer_address = [];
  electro_payment_id = [];
  electro_payment_add_info = [];
  items = [];
  payment_sum = 0;
  payment_type = cash;
  electro_payment_method = 0;
  customer_data_is_present = false;
  seller_data_is_present = false;
  electro_payment_info = false;
}

module _ (s : Setup) where
  abbrev pub limited : ℕ → Bytes → Bytes → Json → Bytes → Read Bytes
  limited hi key path json a = text_at s (max_length hi) key path json a >>= settled

  -- The handler of "customer".
  unfoldable pub read_customer : Json → Bytes → ReceiptDetails → Read (Bool × ReceiptDetails)
  unfolding key_filtered to_wide_text max_length
  read_customer json path d = do
    account ← limited 32 (utf8 "account") path json d.customer_account
    contact ← limited 64 (utf8 "contact") path json d.customer_contact
    name ← limited 256 (utf8 "name") path json d.customer_name
    inn ← limited 12 (utf8 "inn") path json d.customer_inn
    birthdate ← limited 10 (utf8 "birthdate") path json d.customer_birthdate
    citizenship ← limited 3 (utf8 "citizenship") path json d.customer_citizenship
    document_code ← limited 32 (utf8 "documentCode") path json d.customer_document_code
    document_data ← limited 64 (utf8 "documentData") path json d.customer_document_data
    address ← limited 256 (utf8 "address") path json d.customer_address
    ok (
      true,
      record d {
        customer_account = account;
        customer_contact = contact;
        customer_name = name;
        customer_inn = inn;
        customer_birthdate = birthdate;
        customer_citizenship = citizenship;
        customer_document_code = document_code;
        customer_document_data = document_data;
        customer_address = address;
        customer_data_is_present =
            not (is_nil account)
            || not (is_nil contact)
            || not (is_nil name)
            || not (is_nil inn)
            || not (is_nil birthdate)
            || not (is_nil citizenship)
            || not (is_nil document_code)
            || not (is_nil document_data)
            || not (is_nil address);
      },
    )

  -- The handler of "seller".
  unfoldable pub read_seller : Json → Bytes → ReceiptDetails → Read (Bool × ReceiptDetails)
  unfolding key_filtered to_wide_text max_length
  read_seller json path d = do
    email ← limited 64 (utf8 "email") path json d.seller_email
    ok (true, record d { seller_email = email; seller_data_is_present = not (is_nil email) })

  -- The handlers of "text", "headerText" and "footerText", each on its text.
  unfoldable pub read_text : Json → Bytes → PrintableText → Read (Bool × PrintableText)
  unfolding key_filtered key_value to_wide_text to_bool length_between
  read_text json path t = do
    content ←
        text_at s (length_between 1 max_text_length) (utf8 "content") path json t.content
        >>= settled
    center ← flag_at s (utf8 "center") path json t.center >>= settled
    magnified ← flag_at s (utf8 "magnified") path json t.magnified >>= settled
    separated ← flag_at s (utf8 "separated") path json t.separated >>= settled
    ok (
      true,
      record t { content = content; center = center; magnified = magnified; separated = separated },
    )

  abbrev pub text_of : Bytes → Json → PrintableText → Read PrintableText
  text_of key json t = key_handled s.conversions read_text key [] json t >>= settled

  -- The default tax, which is there or not.
  abbrev pub default_tax : Json → Read (Bool × ℕ)
  default_tax json =
      key_mapped s.conversions (to_text s.conversions) (tax_cast_map s.tax_value) (utf8 "tax") []
        json (s.tax_value no)

  abbrev pub items_of : Bool × ℕ → Double → Option Items → Read (List ReceiptItemDetails × Double)
  items_of tax sum none = err (requires_property (wide "items"))
  items_of tax sum (some js) = read_items s tax 0 js sum

  -- `assign` to `ReceiptDetails`.
  unfoldable pub assign_receipt : Json → Read ReceiptDetails
  unfolding assign_operator key_handled key_mapped to_text tax_cast_map requires_property array_at
      read_customer read_seller read_text read_items read_payment
  assign_receipt json = do
    operator ← assign_operator s json
    customer ←
        key_handled s.conversions read_customer (utf8 "customer") [] json (new_receipt operator)
        >>= settled
    seller ← key_handled s.conversions read_seller (utf8 "seller") [] json customer >>= settled
    text ← text_of (utf8 "text") json seller.text
    header_text ← text_of (utf8 "headerText") json seller.header_text
    footer_text ← text_of (utf8 "footerText") json seller.footer_text
    tax ← default_tax json
    items ← items_of tax seller.payment_sum (array_at (utf8 "items") json)
    key_handled s.conversions (read_payment s) (utf8 "payment") [] json (record seller {
      text = text;
      header_text = header_text;
      footer_text = footer_text;
      items = items.0;
      payment_sum = items.1;
    })
        >>= required (requires_property (wide "payment"))
