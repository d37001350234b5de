-- ===== src/Kkm/Import.antt =====
-- src/library/kkm/impex.cpp: the details of a call are read from JSON. What the libraries and the
-- settings provide is a record, `Setup`. The document and the receipt, which are longer, are below.
pub mod Document
pub mod Bounds
pub mod Naming
pub mod DocumentLimits
pub mod Tests
pub mod Receipt
use kkm_https_adapter.Base.{
  ℕ, Bool, true, false, ◌++◌, [], ◌∷◌, Bytes, utf8, Double, Result, ok, err, DataError,
  invalid_data,
}
use kkm_https_adapter.Text.Filters.{length_over, trim_over, max_length}
use kkm_https_adapter.Text.Limits.{between}
use kkm_https_adapter.Http.JsonValue.{Json}
use kkm_https_adapter.Json.{
  Failure, failure, Read, ◌>>=◌, unnamed, Conversions, to_bool, to_wide_text, to_double,
  key_handled, key_value, key_filtered,
}
use kkm_https_adapter.Kkm.Driver.{WideText, wide}
use kkm_https_adapter.Kkm.Details.{OperatorDetails, CashDetails, CloseDetails, PaymentType}
use kkm_https_adapter.Kkm.Tables.{MeasurementUnit, Tax}

-- The settings `s_max…`, the driver's numbers, and the arithmetic of doubles.
pub record Setup : Type 0 where
  pub conversions : Conversions
  pub max_cash_in_out : Double
  pub max_price : Double
  pub max_quantity : Double
  pub times : Double → Double → Double
  pub plus : Double → Double → Double
  pub unit_value : MeasurementUnit → ℕ
  pub tax_value : Tax → ℕ
  pub payment_value : PaymentType → ℕ

-- 0.01.
abbrev pub min_cash_in_out : Double
min_cash_in_out = 0x3f847ae147ae147b

-- `c_requiresProperty` and `c_requiresProperty2`.
unfoldable pub requires_property : Bytes → Failure
requires_property name = failure (wide "Требуется корректное свойство '" ++ (name ++ wide "'"))

unfoldable pub requires_property2 : Bytes → Bytes → Failure
requires_property2 path name =
    failure (wide "Требуется корректное свойство '" ++ (path ++ (wide "." ++ (name ++ wide "'"))))

-- `if (!found) { throw … }`, and a reading that may find nothing.
abbrev pub required : {A : Type 0} → Failure → Bool × A → Read A
required e (true, a) = ok a
required e (false, a) = err e

abbrev pub settled : {A : Type 0} → Bool × A → Read A
settled (found, a) = ok a

module _ (s : Setup) where
  -- `assign` to `Details`.
  unfoldable pub assign_details : Json → Read Bool
  unfolding key_value to_bool
  assign_details json =
      key_value s.conversions (to_bool s.conversions) (utf8 "electronically") [] json false
      >>= settled

  -- A wide text through a filter.
  abbrev pub text_at :
      (Bytes → Result DataError Bytes) → Bytes → Bytes → Json → Bytes → Read (Bool × Bytes)
  text_at filter = key_filtered s.conversions (to_wide_text s.conversions) (λ v. unnamed (filter v))

  abbrev pub double_at : Double → Double → Bytes → Bytes → Json → Double → Read (Bool × Double)
  double_at lo hi =
      key_filtered s.conversions (to_double s.conversions) (λ v. unnamed (between lo hi v))

  abbrev pub flag_at : Bytes → Bytes → Json → Bool → Read (Bool × Bool)
  flag_at = key_value s.conversions (to_bool s.conversions)

  -- The handler of "operator".
  unfoldable pub read_operator : Json → Bytes → OperatorDetails → Read (Bool × OperatorDetails)
  unfolding key_filtered to_wide_text length_over trim_over max_length requires_property2
  read_operator json path details = do
    name ←
        text_at (length_over 1 64 (trim_over ok)) (utf8 "name") path json details.operator_name
        >>= required (requires_property2 path (wide "name"))
    inn ← text_at (max_length 12) (utf8 "inn") path json details.operator_inn >>= settled
    ok (true, record details { operator_name = name; operator_inn = inn })

  -- `assign` to `OperatorDetails`.
  unfoldable pub assign_operator : Json → Read OperatorDetails
  unfolding assign_details key_handled read_operator requires_property
  assign_operator json = do
    electronically ← assign_details json
    key_handled s.conversions read_operator (utf8 "operator") [] json
          (record { electronically = electronically; operator_name = []; operator_inn = [] })
        >>= required (requires_property (wide "operator"))

  -- `assign` to `CashDetails`.
  unfoldable pub assign_cash : Json → Read CashDetails
  unfolding assign_operator key_filtered to_double between requires_property
  assign_cash json = do
    operator ← assign_operator json
    cash_sum ←
        double_at min_cash_in_out s.max_cash_in_out (utf8 "cashSum") [] json 0
        >>= required (requires_property (wide "cashSum"))
    ok (record { operator = operator; cash_sum = cash_sum })

  -- `assign` to `CloseDetails`.
  unfoldable pub assign_close : Json → Read CloseDetails
  unfolding assign_operator key_value to_bool
  assign_close json = do
    operator ← assign_operator json
    close_shift ← flag_at (utf8 "closeShift") [] json false >>= settled
    cash_out ← flag_at (utf8 "cashOut") [] json false >>= settled
    ok (record { operator = operator; close_shift = close_shift; cash_out = cash_out })
