-- ===== src/Text/Trim.antt =====
-- What trimming removes and what it keeps.
use kkm_https_adapter.Base.{
  ℕ, Bool, true, false, [], ◌∷◌, ◌++◌, ◌≡◌, refl, sym, ap, ◌∙◌, inl, inr, arith, Bytes, Bool-cases,
  List-cases, All,
}
use kkm_https_adapter.Text.{from_first, to_last, trim, trimmed, no_trim_predicate, trim_predicate}

from_first_idem : (p : ℕ → Bool) (t : Bytes) → from_first p (from_first p t) ≡ from_first p t
unfolding from_first
from_first_idem p [] = refl
from_first_idem p (c ∷ t) = elim (Bool-cases (p c)) [
  | inl h ↦ rw h (rw h refl)
  | inr h ↦ rw h (from_first_idem p t)
]

to_last_idem : (p : ℕ → Bool) (t : Bytes) → to_last p (to_last p t) ≡ to_last p t
unfolding to_last
to_last_idem p [] = refl
to_last_idem p (c ∷ t) = ground (arith, to_last_idem p t)

-- Cutting the front and cutting the end commute.
pub to_last-from_first :
    (p : ℕ → Bool) (t : Bytes) → to_last p (from_first p t) ≡ from_first p (to_last p t)
unfolding from_first to_last
to_last-from_first p [] = refl
to_last-from_first p (c ∷ t) = elim (Bool-cases (p c)) [
  | inl h ↦ ground arith
  | inr h ↦ ground (arith, to_last-from_first p t)
]

-- `trim` and `trimmed` give the same text, though they cut in opposite orders.
pub trim-eq-trimmed : (t : Bytes) → trim t ≡ trimmed t
unfolding trim trimmed
trim-eq-trimmed t = to_last-from_first no_trim_predicate t

abbrev pub IsTrimmed : Bytes → Type 0
IsTrimmed t = (from_first no_trim_predicate t ≡ t) × (to_last no_trim_predicate t ≡ t)

-- A blank byte is one that the trimming predicate accepts.
abbrev pub IsBlank : ℕ → Type 0
IsBlank c = trim_predicate c ≡ true

pub trim-IsTrimmed : (t : Bytes) → IsTrimmed (trim t)
unfolding trim
trim-IsTrimmed t =
    let p = no_trim_predicate in
    (
      ap (from_first p) (to_last-from_first p t)
          ∙ from_first_idem p (to_last p t)
          ∙ sym (to_last-from_first p t),
      to_last_idem p (from_first p t),
    )

pub trim_of_IsTrimmed : (t : Bytes) → IsTrimmed t → trim t ≡ t
unfolding trim
trim_of_IsTrimmed t h = ap (to_last no_trim_predicate) h.0 ∙ h.1

-- The two predicates are opposites.
predicates_opposite : (c : ℕ) → no_trim_predicate c ≡ false → IsBlank c
unfolding no_trim_predicate trim_predicate
predicates_opposite c h = ground arith

from_first_cuts :
    (t : Bytes)
    → (front : Bytes) × (t ≡ front ++ from_first no_trim_predicate t) × All IsBlank front
unfolding from_first
from_first_cuts [] = ([], refl, tt)
from_first_cuts (c ∷ t) = elim (Bool-cases (no_trim_predicate c)) [
  | inl h ↦ ([], rw h refl, tt)
  | inr h ↦
      let (front, e, b) = from_first_cuts t in
      (c ∷ front, rw h (ap (◌∷◌ c) e), (predicates_opposite c h, b))
]

to_last_cuts :
    (t : Bytes) → (end : Bytes) × (t ≡ to_last no_trim_predicate t ++ end) × All IsBlank end
unfolding to_last
to_last_cuts [] = ([], refl, tt)
to_last_cuts (c ∷ t) =
    let (end, e, b) = to_last_cuts t in
    elim (Bool-cases (no_trim_predicate c)) [
      | inl h ↦ (end, ground arith, b)
      | inr h ↦ elim (List-cases (to_last no_trim_predicate t)) [
        | inl nil ↦ (c ∷ end, ground arith, (predicates_opposite c h, b))
        | inr (x, xs, more) ↦ (end, ground arith, b)
      ]
    ]

-- `trim` cuts blanks off the two ends and nothing else, and what is left begins and ends with no
-- blank: cutting it again at either end changes nothing.
pub trim_lem :
    (t : Bytes)
    → (front end : Bytes) × (t ≡ front ++ (trim t ++ end))
      × All IsBlank front
      × All IsBlank end
      × IsTrimmed (trim t)
unfolding trim
trim_lem t =
    let (front, e, b) = from_first_cuts t in
    let (end, e', b') = to_last_cuts (from_first no_trim_predicate t) in
    (front, end, e ∙ ap (◌++◌ front) e', b, b', trim-IsTrimmed t)
