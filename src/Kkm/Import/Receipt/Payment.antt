-- ===== src/Kkm/Import/Receipt/Payment.antt =====
-- The payment of a receipt: the handlers of "payment" and "electroPaymentInfo" in
-- src/library/kkm/impex.cpp.
use kkm_https_adapter.Base.{
  Bool, true, false, map, [], Bytes, utf8, equal, if◌then◌else◌, Result, ok, err, DataError, Double,
}
use kkm_https_adapter.Text.Filters.{length_between, max_length}
use kkm_https_adapter.Http.JsonValue.{Json}
use kkm_https_adapter.Json.{
  Read, ◌>>=◌, Failure, to_int, to_text, to_wide_text, cast_text, key_handled, key_value,
  key_filtered, key_mapped,
}
use kkm_https_adapter.Kkm.Driver.{wide}
use kkm_https_adapter.Kkm.Details.{ReceiptDetails, PaymentType, cash, electronically}
use kkm_https_adapter.Kkm.Tables.{payment_type_cast_map}
use kkm_https_adapter.Kkm.Import.{Setup, required, settled, requires_property2, text_at}

-- -1.
abbrev pub minus_one : Double
minus_one = 0xbff0000000000000

-- `catch (...)`.
abbrev or_else : {A : Type 0} → Failure → Result DataError A → Read A
or_else e (err m) = err e
or_else e (ok a) = ok a

abbrev pub is_electronic : PaymentType → Bool
is_electronic electronically = true
is_electronic cash = false

module _ (s : Setup) where
  -- The handler of "electroPaymentInfo".
  unfoldable pub read_electro : Json → Bytes → ReceiptDetails → Read (Bool × ReceiptDetails)
  unfolding key_value key_filtered to_int to_wide_text length_between max_length requires_property2
  read_electro json path d = do
    method ←
        key_value s.conversions (to_int s.conversions) (utf8 "method") path json
          d.electro_payment_method
        >>= required (requires_property2 path (wide "method"))
    id ←
        text_at s (length_between 1 256) (utf8 "id") path json d.electro_payment_id
        >>= required (requires_property2 path (wide "id"))
    add_info ←
        text_at s (max_length 256) (utf8 "addInfo") path json d.electro_payment_add_info >>= settled
    ok (
      true,
      record d {
        electro_payment_method = method;
        electro_payment_id = id;
        electro_payment_add_info = add_info;
      },
    )

  -- The text of the sum in lower case: "auto", or a number.
  unfoldable pub read_sum : Bytes → Bytes → Read Double
  unfolding cast_text requires_property2 equal
  read_sum path text =
      let sum = map s.conversions.to_lower_wide text in
      if equal sum (wide "auto")
      then ok minus_one
      else or_else (requires_property2 path (wide "sum")) (cast_text s.conversions.strtod sum)

  abbrev pub with_info : Bool × ReceiptDetails → ReceiptDetails
  with_info (found, d) = record d { electro_payment_info = found }

  -- The handler of "payment".
  unfoldable pub read_payment : Json → Bytes → ReceiptDetails → Read (Bool × ReceiptDetails)
  unfolding key_value key_handled key_mapped to_text to_wide_text requires_property2 read_sum
      payment_type_cast_map read_electro
  read_payment json path d = do
    text ←
        key_value s.conversions (to_wide_text s.conversions) (utf8 "sum") path json []
        >>= required (requires_property2 path (wide "sum"))
    sum ← read_sum path text
    type ←
        key_mapped s.conversions (to_text s.conversions) (payment_type_cast_map s.payment_value)
          (utf8 "type") path json d.payment_type
        >>= required (requires_property2 path (wide "type"))
    let paid = record d { payment_sum = sum; payment_type = type }
    if is_electronic type
        then (key_handled s.conversions read_electro (utf8 "electroPaymentInfo") [] json paid
            >>= λ p. ok (true, with_info p))
        else ok (true, paid)
