-- ===== src/Text/Filters.antt =====
-- `Text::cast<bool>` and the string filters of src/library/lib/text.h. A filter is a function that
-- may throw; a filter over another one runs it first.
use kkm_https_adapter.Base.{
  ℕ, ◌≤◌, Bool, true, false, ◌||◌, List, [], ◌∷◌, ◌≡◌, ◌↔◌, refl, arith, Bytes, is_nil, length,
  if◌then◌else◌, ltb, utf8, All, equal, equal_iff, Result, ok, err, DataError, invalid_value,
  range_error, after, Bool-cases, inl, inr,
}
use kkm_https_adapter.Text.{lower, trimmed}

abbrev pub Filter : Type 0
Filter = Bytes → Result DataError Bytes

-- `unordered_set::contains`.
unfoldable pub contains : List Bytes → Bytes → Bool
contains [] t = false
contains (s ∷ ss) t = equal s t || contains ss t

abbrev pub true_value_strings : List Bytes
true_value_strings =
    utf8 "true"
    ∷ utf8 "t"
    ∷ utf8 "yes"
    ∷ utf8 "y"
    ∷ utf8 "on"
    ∷ utf8 "enable"
    ∷ utf8 "ena"
    ∷ utf8 "en"
    ∷ utf8 "e"
    ∷ utf8 "allow"
    ∷ utf8 "allowed"
    ∷ utf8 "a"
    ∷ utf8 "+"
    ∷ []

abbrev pub false_value_strings : List Bytes
false_value_strings =
    utf8 "false"
    ∷ utf8 "f"
    ∷ utf8 "no"
    ∷ utf8 "n"
    ∷ utf8 "off"
    ∷ utf8 "disable"
    ∷ utf8 "dis"
    ∷ utf8 "d"
    ∷ utf8 "deny"
    ∷ utf8 "denied"
    ∷ utf8 "-"
    ∷ []

unfoldable pub cast_bool : Bytes → Result DataError Bool
unfolding contains lower
cast_bool text =
    if is_nil text
    then err invalid_value
    else if contains true_value_strings (lower text)
    then ok true
    else if contains false_value_strings (lower text)
    then ok false
    else err invalid_value

unfoldable pub no_empty : Filter
no_empty value = if is_nil value then err range_error else ok value

unfoldable pub length_between : ℕ → ℕ → Filter
length_between lo hi value =
    if ltb (length value) lo || ltb hi (length value) then err range_error else ok value

unfoldable pub max_length : ℕ → Filter
max_length hi value = if ltb hi (length value) then err range_error else ok value

-- The filters over another filter.
unfoldable pub trim_over : Filter → Filter
unfolding trimmed
trim_over f value = after (λ v. ok (trimmed v)) (f value)

unfoldable pub lower_over : Filter → Filter
unfolding lower
lower_over f value = after (λ v. ok (lower v)) (f value)

unfoldable pub no_empty_over : Filter → Filter
unfolding no_empty
no_empty_over f value = after no_empty (f value)

unfoldable pub length_over : ℕ → ℕ → Filter → Filter
unfolding length_between
length_over lo hi f value = after (length_between lo hi) (f value)

unfoldable pub max_length_over : ℕ → Filter → Filter
unfolding max_length
max_length_over hi f value = after (max_length hi) (f value)

-- A text that has passed `length` over `trim` has a length within the bounds and no blank at
-- either end.
pub length_over-trim :
    (lo hi : ℕ) (t v : Bytes)
    → length_over lo hi (trim_over ok) t ≡ ok v
    → (lo ≤ length v) × (length v ≤ hi) × (v ≡ trimmed t)
unfolding length_over trim_over
length_over-trim lo hi t v h = ground arith

abbrev choose : Bool → Bool → Bool → Result DataError Bool
choose empty listed denied =
    if empty
    then err invalid_value
    else if listed
    then ok true
    else if denied
    then ok false
    else err invalid_value

choose_iff :
    (empty listed denied b : Bool)
    → (empty ≡ true → (listed ≡ false) × (denied ≡ false))
    → (denied ≡ true → listed ≡ false)
    → (choose empty listed denied ≡ ok b) ↔ ((if b then listed else denied) ≡ true)
choose_iff true l d b h k = ground (arith, h refl)
choose_iff false true d b h k = ground arith
choose_iff false false true true h k = ground arith
choose_iff false false true false h k = ground arith
choose_iff false false false b h k = ground arith

contains_disjoint :
    (l ss : List Bytes) (t : Bytes)
    → All (λ s. contains l s ≡ false) ss
    → contains ss t ≡ true
    → contains l t ≡ false
unfolding contains
contains_disjoint l [] t h e = cc
contains_disjoint l (s ∷ ss) t (h, k) e = elim (Bool-cases (equal s t)) [
  | inl same ↦ rw (← (equal_iff s t).0 same) h
  | inr other ↦ contains_disjoint l ss t k (rw other at e)
]

lists_disjoint : All (λ s. contains true_value_strings s ≡ false) false_value_strings
unfolding contains equal
lists_disjoint =
    (refl, (refl, (refl, (refl, (refl, (refl, (refl, (refl, (refl, (refl, (refl, tt)))))))))))

nil_unlisted :
    (t : Bytes)
    → is_nil t ≡ true
    → (contains true_value_strings (lower t) ≡ false)
      × (contains false_value_strings (lower t) ≡ false)
unfolding contains equal lower
nil_unlisted [] h = (refl, refl)
nil_unlisted (c ∷ t) h = cc

-- Exactly the texts whose lower case is on one of the two lists are read as truth values, and no
-- text is on both.
pub cast_bool_iff :
    (t : Bytes) (b : Bool)
    → (cast_bool t ≡ ok b) ↔ (
        (if b
          then contains true_value_strings (lower t)
          else contains false_value_strings (lower t))
        ≡ true)
unfolding cast_bool
cast_bool_iff t b =
    choose_iff (is_nil t) (contains true_value_strings (lower t))
      (contains false_value_strings (lower t)) b (nil_unlisted t)
      (contains_disjoint true_value_strings false_value_strings (lower t) lists_disjoint)
