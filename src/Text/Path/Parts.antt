-- ===== src/Text/Path/Parts.antt =====
-- The parts of a good path.
use kkm_https_adapter.Base.{
  ℕ, Bool, true, false, ◌&&◌, ◌||◌, ◌==◌, List, [], ◌∷◌, Bytes, utf8, All, arith, if◌then◌else◌,
  Bool-cases, inl, inr, ◌≡◌, refl,
}
use kkm_https_adapter.Text.Path.{starts_with, has, is_good}

abbrev pub is_separator : ℕ → Bool
is_separator c = c == b'/' || c == b'\\'

abbrev extend : ℕ → List Bytes → List Bytes
extend c [] = (c ∷ []) ∷ []
extend c (p ∷ ps) = (c ∷ p) ∷ ps

-- What stands between the separators.
unfoldable pub parts : Bytes → List Bytes
parts [] = [] ∷ []
parts (c ∷ t) = let rest = parts t in if is_separator c then [] ∷ rest else extend c rest

-- A part that begins with neither a dot nor a blank: neither `.` nor `..`, nor a hidden name.
abbrev pub IsPlain : Bytes → Type 0
IsPlain [] = Unit
IsPlain (c ∷ p) = (c == b'.' ≡ false) × (c == b' ' ≡ false)

-- The text begins with a dot or a blank.
abbrev follows : Bytes → Bool
follows [] = false
follows (c ∷ t) = c == b'.' || c == b' '

-- No separator is followed by a dot or a blank.
abbrev PlainFrom : Bytes → Type 0
PlainFrom [] = Unit
PlainFrom (c ∷ t) = (is_separator c && follows t ≡ false) × PlainFrom t

abbrev Head : List Bytes → Type 0
Head [] = Unit
Head (p ∷ ps) = IsPlain p

abbrev Tail : List Bytes → Type 0
Tail [] = Unit
Tail (p ∷ ps) = All IsPlain ps

whole : (l : List Bytes) → Head l → Tail l → All IsPlain l
whole [] h t = tt
whole (p ∷ ps) h t = (h, t)

extend-Head : (c : ℕ) (l : List Bytes) → c == b'.' || c == b' ' ≡ false → Head (extend c l)
extend-Head c [] h = ground (arith, h)
extend-Head c (p ∷ ps) h = ground (arith, h)

extend-Tail : (c : ℕ) (l : List Bytes) → Tail l → Tail (extend c l)
extend-Tail c [] h = tt
extend-Tail c (p ∷ ps) h = h

parts-Head : (t : Bytes) → follows t ≡ false → Head (parts t)
unfolding parts
parts-Head [] h = tt
parts-Head (c ∷ t) h = elim (Bool-cases (is_separator c)) [
  | inl e ↦ rw e tt
  | inr e ↦ rw e (extend-Head c (parts t) h)
]

parts-Tail : (t : Bytes) → PlainFrom t → Tail (parts t)
unfolding parts
parts-Tail [] h = tt
parts-Tail (c ∷ t) h = elim (Bool-cases (is_separator c)) [
  | inl e ↦
      let plain : follows t ≡ false = rw e at h.0 in
      rw e (whole (parts t) (parts-Head t plain) (parts-Tail t h.1))
  | inr e ↦ rw e (extend-Tail c (parts t) (parts-Tail t h.1))
]

nowhere :
    (t : Bytes)
    → has (utf8 "\\.") t ≡ false
    → has (utf8 "/.") t ≡ false
    → has (utf8 "\\ ") t ≡ false
    → has (utf8 "/ ") t ≡ false
    → PlainFrom t
unfolding has
nowhere [] h1 h2 h3 h4 = tt
nowhere (c ∷ []) h1 h2 h3 h4 = (ground arith, tt)
nowhere (c ∷ (d ∷ t)) h1 h2 h3 h4 = ground (arith, nowhere (d ∷ t))

-- The parts of a good path from the root are plain: none of them is `.` or `..`.
pub parts-IsPlain :
    (t : Bytes) → is_good t ≡ true → starts_with (utf8 "/") t ≡ true → All IsPlain (parts t)
unfolding is_good
parts-IsPlain t h s = whole (parts t) (parts-Head t (rooted t s)) (parts-Tail t (good t h))
  where
    rooted : (t : Bytes) → starts_with (utf8 "/") t ≡ true → follows t ≡ false
    rooted [] s = refl
    rooted (c ∷ t) s = ground (arith, s)

    good : (t : Bytes) → is_good t ≡ true → PlainFrom t
    good t h = ground (arith, nowhere t)
