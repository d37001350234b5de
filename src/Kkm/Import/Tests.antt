-- ===== src/Kkm/Import/Tests.antt =====
-- Imports at concrete inputs.
use kkm_https_adapter.Base.{
  ℕ, ◌⊎◌, true, false, [], ◌∷◌, none, some, utf8, ◌≡◌, refl, ok, err, ◌==◌, All, invalid_value,
  invalid_data, length, equal, is_nan,
}
use kkm_https_adapter.Text.Limits.{IsWithin}
use kkm_https_adapter.Http.JsonValue.{
  Json, boolean, number, string, array, object, Items, nil, cons, end, field,
}
use kkm_https_adapter.Json.{Conversions, key_path, data_error, handle_key, to_double, plain, ◌>>=◌}
use kkm_https_adapter.Json.Blame.{NamedInside, handle_key-Blames}
use kkm_https_adapter.Json.Naming.{IsFaithful}
use kkm_https_adapter.Kkm.Driver.{wide}
use kkm_https_adapter.Kkm.Details.{OperatorDetails, PrintDetails, ReceiptDetails, pos}
use kkm_https_adapter.Kkm.Import.{Setup, min_cash_in_out, assign_cash}
use kkm_https_adapter.Kkm.Import.Bounds.{IsOperator, assign_cash-IsWithin}
use kkm_https_adapter.Kkm.Import.Document.{array_at, assign_print}
use kkm_https_adapter.Kkm.Import.DocumentLimits.{IsBlock, assign_print-IsDocument}
use kkm_https_adapter.Kkm.Import.Receipt.{assign_receipt, new_receipt}
use kkm_https_adapter.Kkm.Import.Receipt.Payment.{minus_one}
use kkm_https_adapter.Kkm.Import.Receipt.ItemLimits.{IsLimited, count}
use kkm_https_adapter.Kkm.Import.Receipt.Whole.{IsReceipt, assign_receipt-IsReceipt}

-- Numbers are doubles by their bits, wide texts are the narrow ones.
abbrev conversions : Conversions
conversions = record {
  widen = λ t. t;
  is_integer = λ n. true;
  integer_text = λ n. utf8 "1";
  float_text = λ n. utf8 "1.5";
  is_zero = λ n. n == 0;
  get_double = λ n. n;
  get_int = λ n. n;
  strtod = λ t. none;
  strtol = λ t. none;
  to_lower_wide = λ c. c;
}

abbrev pub setup : Setup
setup = record {
  conversions = conversions;
  max_cash_in_out = 0x411e848000000000;
  max_price = 0x41124f8000000000;
  max_quantity = 0x408f400000000000;
  times = λ x y. x;
  plus = λ x y. x;
  unit_value = λ u. 0;
  tax_value = λ t. 7;
  payment_value = λ p. 3;
}

faithful : IsFaithful conversions
faithful = record { keeps = λ key h. h }

limited : IsLimited setup
unfolding is_nan
limited = record { price = refl; quantity = refl }

-- 2.0
abbrev two : ℕ
two = 0x4000000000000000

abbrev an_operator : Json
an_operator = object (field (utf8 "name") (string (utf8 " Ann ")) end)

abbrev cash_in : Json
cash_in = object (field (utf8 "operator") an_operator (field (utf8 "cashSum") (number two) end))

abbrev ann : OperatorDetails
ann = record { electronically = false; operator_name = utf8 "Ann"; operator_inn = [] }

abbrev an_item : ℕ → Json
an_item price = object (
    field (utf8 "title") (string (utf8 "tea")) (
      field (utf8 "price") (number price)
        (field (utf8 "quantity") (number two) (field (utf8 "tax") (string (utf8 "NO")) end))))

abbrev a_payment : Json
a_payment =
    object
      (field (utf8 "sum") (string (utf8 "auto")) (field (utf8 "type") (string (utf8 "Cash")) end))

abbrev a_receipt : ℕ → Json
a_receipt price = object (
    field (utf8 "operator") an_operator (
      field (utf8 "items") (array (cons (an_item price) nil))
        (field (utf8 "payment") a_payment end)))

cash_read : assign_cash setup cash_in ≡ ok (record { operator = ann; cash_sum = two })
unfolding assign_cash ◌>>=◌ equal
cash_read = refl

cash_limit : is_nan setup.max_cash_in_out ≡ false
unfolding is_nan
cash_limit = refl

assign_cash-IsWithin_example : IsOperator ann × IsWithin min_cash_in_out setup.max_cash_in_out two
assign_cash-IsWithin_example =
    assign_cash-IsWithin setup cash_in (record { operator = ann; cash_sum = two }) cash_limit
      cash_read

-- The sum is "auto", which is -1.
abbrev sold : ReceiptDetails
sold = record (new_receipt ann) {
  items =
      record { commodity_name = utf8 "tea"; price = two; quantity = two; unit = 0; tax = 7 } ∷ [];
  payment_sum = minus_one;
}

receipt_read : assign_receipt setup (a_receipt two) ≡ ok sold
unfolding assign_receipt ◌>>=◌ equal
receipt_read = refl

assign_receipt-IsReceipt_example : IsReceipt setup (a_receipt two) sold
assign_receipt-IsReceipt_example =
    assign_receipt-IsReceipt setup (a_receipt two) sold limited receipt_read

-- A price of 0.01 is within the limits of the import, but not within the item's own.
abbrev cheap : ℕ
cheap = 0x3f847ae147ae147b

cheap_refused :
    assign_receipt setup (a_receipt cheap) ≡ err (data_error invalid_data (wide "price"))
unfolding assign_receipt ◌>>=◌ equal
cheap_refused = refl

abbrev a_document : Json
a_document = object (
    field (utf8 "margin") (boolean true) (
      field (utf8 "document")
        (array (
          cons (object (field (utf8 "separator") (boolean true) end))
            (cons (object (field (utf8 "content") (string (utf8 "hi")) end)) nil)))
        end))

abbrev printed : PrintDetails
printed = record {
  electronically = false;
  document =
      record {
        content = [];
        margin_outer = pos 0;
        margin_inner = pos 0;
        center = false;
        magnified = false;
        separated = true;
      }
      ∷ record {
        content = utf8 "hi";
        margin_outer = pos 0;
        margin_inner = pos 1;
        center = false;
        magnified = false;
        separated = false;
      }
      ∷ [];
  cliche = false;
  footer = false;
}

document_read : assign_print setup a_document ≡ ok printed
unfolding assign_print ◌>>=◌ equal
document_read = refl

assign_print-IsDocument_example :
    All IsBlock printed.document
    × ((js : Items) × (array_at (utf8 "document") a_document ≡ some js)
        × (length printed.document ≡ count js))
assign_print-IsDocument_example = assign_print-IsDocument setup a_document printed document_read

-- A null is no property, an array is no number.
wrong :
    handle_key conversions
      (plain (to_double conversions))
      (utf8 "sum")
      (utf8 "payment")
      (object (field (utf8 "sum") (array nil) end))
      0
    ≡ err (data_error invalid_value (utf8 "payment.sum"))
unfolding handle_key ◌>>=◌ equal plain to_double
wrong = refl

handle_key-Blames_example :
    (utf8 "payment.sum" ≡ key_path conversions (utf8 "payment") (utf8 "sum"))
    ⊎ NamedInside conversions
        (plain (to_double conversions))
        (utf8 "sum")
        (utf8 "payment")
        0
        invalid_value
        (utf8 "payment.sum")
        (object (field (utf8 "sum") (array nil) end))
handle_key-Blames_example =
    handle_key-Blames conversions (plain (to_double conversions)) (utf8 "sum") (utf8 "payment") 0
      invalid_value (utf8 "payment.sum") (object (field (utf8 "sum") (array nil) end)) wrong
