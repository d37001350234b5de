-- ===== src/Server/KkmOp/ContentType.antt =====
-- Which `content-type` the handler of the cash registers accepts.
use kkm_https_adapter.Base.{
  Bool, true, false, ◌≡◌, refl, arith, ◌&&◌, ◌||◌, not, List, [], ◌∷◌, Bytes, utf8, equal,
  Bool-cases, inl, inr, sym, ap, ◌∙◌,
}
use kkm_https_adapter.Text.{trim, split_variable, assignment_signs}
use kkm_https_adapter.Server.KkmOp.{good_chunks}

abbrev pub is_json : Bytes → Bool
is_json part = equal (trim part) (utf8 "application/json")

-- The part is a charset that is not UTF-8.
abbrev pub is_other_charset : Bytes → Bool
is_other_charset part =
    let (name, value) = split_variable (trim part) true true assignment_signs in
    equal name (utf8 "charset")
    && not (equal value (utf8 "utf-8"))
    && not (equal value (utf8 "utf8"))

abbrev pub any : (Bytes → Bool) → List Bytes → Bool
any p [] = false
any p (x ∷ xs) = p x || any p xs

or_true : (b : Bool) → (b || true) ≡ true
or_true true = refl
or_true false = refl

and_false : (b : Bool) → (b && false) ≡ false
and_false true = refl
and_false false = refl

abbrev pub is_bad : Bytes → Bool
is_bad part = not (is_json part) && is_other_charset part

-- The loop over the parts accepts them when one of them is `application/json` (or one was before) and
-- none that is not so names a charset other than UTF-8 (and none did before).
pub good_chunks-eq-any :
    (type_ok charset_ok : Bool) (parts : List Bytes)
    → good_chunks type_ok charset_ok parts
      ≡ (type_ok || any is_json parts) && (charset_ok && not (any is_bad parts))
unfolding good_chunks
good_chunks-eq-any t c [] = ground arith
good_chunks-eq-any t c (part ∷ parts) = elim (Bool-cases (is_json part)) [
  | inl e ↦ rw e (
      good_chunks-eq-any true c parts
      ∙ ap (λ b. b && (c && not (any is_bad parts))) (sym (or_true t)))
  | inr e ↦ elim (Bool-cases (is_other_charset part)) [
    | inl f ↦
        rw (e, f)
          (good_chunks-eq-any t false parts
            ∙ ap (λ b. (t || any is_json parts) && b) (sym (and_false c)))
    | inr f ↦ rw (e, f) (good_chunks-eq-any t c parts)
  ]
]
