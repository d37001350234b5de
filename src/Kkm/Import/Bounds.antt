-- ===== src/Kkm/Import/Bounds.antt =====
-- The limits that imported details keep.
use kkm_https_adapter.Base.{
  ℕ, ◌≤◌, Bool, true, false, [], Bytes, utf8, ◌≡◌, refl, length, arith, Result, ok, err, DataError,
  Double, is_nan, sym, ◌∙◌,
}
use mathlib.Core.Path.{subst}
use kkm_https_adapter.Text.{trim}
use kkm_https_adapter.Text.Trim.{IsTrimmed, trim-IsTrimmed, trim-eq-trimmed}
use kkm_https_adapter.Text.Filters.{
  length_over, length_over-trim, trim_over, max_length, length_between,
}
use kkm_https_adapter.Text.Limits.{between, between-IsWithin, IsWithin}
use kkm_https_adapter.Http.JsonValue.{Json}
use kkm_https_adapter.Json.{Failure, unnamed, to_wide_text, to_double}
use kkm_https_adapter.Json.Laws.{
  Ensures, Got, taken, kept, Ensures-err, Ensures-ok, Ensures-bind, Ensures-any, key_handled-Got,
  key_filtered-Got,
}
use kkm_https_adapter.Kkm.Details.{OperatorDetails, CashDetails}
use kkm_https_adapter.Kkm.Import.{
  Setup, required, settled, assign_details, text_at, double_at, read_operator, assign_operator,
  assign_cash, assign_close, min_cash_in_out,
}

module _ {A : Type 0} {P : A → Type 0} where
  pub required-Ensures : (e : Failure) {a : A} (p : Bool × A) → Got a P p → Ensures P (required e p)
  required-Ensures e (true, v) (taken w h) = Ensures-ok v h
  required-Ensures e (false, v) h = Ensures-err e

  pub settled-Ensures : {a : A} (p : Bool × A) → P a → Got a P p → Ensures P (settled p)
  settled-Ensures (true, v) h (taken w k) = Ensures-ok v k
  settled-Ensures (false, v) h kept = Ensures-ok _ h

  pub unnamed-Ensures :
      (r : Result DataError A) → ((a : A) → r ≡ ok a → P a) → Ensures P (unnamed r)
  unnamed-Ensures (err e) h = Ensures-err _
  unnamed-Ensures (ok a) h = Ensures-ok a (h a refl)

-- A text with a length between bounds, and one with no blank at either end.
abbrev pub HasLength : ℕ → ℕ → Bytes → Type 0
HasLength lo hi v = (lo ≤ length v) × (length v ≤ hi)

abbrev pub IsTitle : ℕ → Bytes → Type 0
IsTitle hi v = HasLength 1 hi v × IsTrimmed v

module _ (s : Setup) (key base : Bytes) (json : Json) where
  pub text_at-IsTitle :
      (hi : ℕ) (a : Bytes)
      → Ensures (Got a (IsTitle hi)) (text_at s (length_over 1 hi (trim_over ok)) key base json a)
  text_at-IsTitle hi a =
      key_filtered-Got a s.conversions (to_wide_text s.conversions) _ key base json λ v.
        unnamed-Ensures (length_over 1 hi (trim_over ok) v) λ w h.
          let facts = length_over-trim 1 hi v w h in
          let same : trim v ≡ w = trim-eq-trimmed v ∙ sym facts.2 in
          ((facts.0, facts.1), subst IsTrimmed same (trim-IsTrimmed v))

  pub text_at-max :
      (hi : ℕ) (a : Bytes)
      → Ensures (Got a (HasLength 0 hi)) (text_at s (max_length hi) key base json a)
  unfolding max_length
  text_at-max hi a =
      key_filtered-Got a s.conversions (to_wide_text s.conversions) _ key base json
        λ v. unnamed-Ensures (max_length hi v) λ w h. ground arith

  pub text_at-between :
      (lo hi : ℕ) (a : Bytes)
      → Ensures (Got a (HasLength lo hi)) (text_at s (length_between lo hi) key base json a)
  unfolding length_between
  text_at-between lo hi a =
      key_filtered-Got a s.conversions (to_wide_text s.conversions) _ key base json
        λ v. unnamed-Ensures (length_between lo hi v) λ w h. ground arith

  pub double_at-IsWithin :
      (lo hi a : Double)
      → is_nan lo ≡ false
      → is_nan hi ≡ false
      → Ensures (Got a (IsWithin lo hi)) (double_at s lo hi key base json a)
  double_at-IsWithin lo hi a h k =
      key_filtered-Got a s.conversions (to_double s.conversions) _ key base json λ v.
        unnamed-Ensures (between lo hi v) λ w e.
          let facts = (between-IsWithin lo hi v w h k).0 e in
          subst (IsWithin lo hi) (sym facts.0) facts.1

-- An operator as a document takes one: a name of 1 to 64 characters without blanks at its ends, and a
-- tax number of up to 12.
pub record IsOperator (d : OperatorDetails) : Type 0 where
  pub named : IsTitle 64 d.operator_name
  pub numbered : HasLength 0 12 d.operator_inn

module _ (s : Setup) where
  read_operator-Got :
      (d : OperatorDetails) (json : Json) (path : Bytes)
      → HasLength 0 12 d.operator_inn
      → Ensures (Got d IsOperator) (read_operator s json path d)
  unfolding read_operator
  read_operator-Got d json path h =
      Ensures-bind _ _
        (Ensures-bind _ _ (text_at-IsTitle s (utf8 "name") path json 64 d.operator_name)
          (required-Ensures _))
        λ name n.
          Ensures-bind _ _
            (Ensures-bind _ _ (text_at-max s (utf8 "inn") path json 12 d.operator_inn)
              λ p. settled-Ensures p h)
            λ inn i. Ensures-ok _ (taken _ (record { named = n; numbered = i }))

  pub assign_operator-Ensures : (json : Json) → Ensures IsOperator (assign_operator s json)
  unfolding assign_operator
  assign_operator-Ensures json = Ensures-bind _ _ (Ensures-any (assign_details s json)) λ e _.
      Ensures-bind _ _
        (key_handled-Got _ s.conversions (read_operator s) (utf8 "operator") [] json
          λ j path. read_operator-Got _ j path (omega arith, omega arith))
        (required-Ensures _)

  -- The operator of an imported call keeps its limits.
  pub assign_operator-IsOperator :
      (json : Json) (d : OperatorDetails) → assign_operator s json ≡ ok d → IsOperator d
  assign_operator-IsOperator json = (assign_operator-Ensures json).returns

  abbrev IsCash : CashDetails → Type 0
  IsCash d = IsOperator d.operator × IsWithin min_cash_in_out s.max_cash_in_out d.cash_sum

  -- The cash of an imported call is within its limits, the setting's as the upper one, or no number,
  -- and its operator keeps the limits on an operator.
  pub assign_cash-IsWithin :
      (json : Json) (d : CashDetails)
      → is_nan s.max_cash_in_out ≡ false
      → assign_cash s json ≡ ok d
      → IsOperator d.operator × IsWithin min_cash_in_out s.max_cash_in_out d.cash_sum
  unfolding assign_cash
  assign_cash-IsWithin json d h = made.returns d
    where
      made : Ensures IsCash (assign_cash s json)
      made = Ensures-bind _ _ (assign_operator-Ensures json) λ operator o.
          Ensures-bind _ _
            (Ensures-bind _ _
              (double_at-IsWithin s (utf8 "cashSum") [] json min_cash_in_out s.max_cash_in_out 0
                refl h)
              (required-Ensures _))
            λ sum w. Ensures-ok _ (o, w)

  pub assign_close-IsOperator :
      (json : Json) → Ensures (λ d. IsOperator d.operator) (assign_close s json)
  unfolding assign_close
  assign_close-IsOperator json = Ensures-bind _ _ (assign_operator-Ensures json) λ operator o.
      Ensures-bind _ _ (Ensures-any _)
        λ close _. Ensures-bind _ _ (Ensures-any _) λ out _. Ensures-ok _ o
