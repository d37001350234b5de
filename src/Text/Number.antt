-- ===== src/Text/Number.antt =====
-- `Text::cast<size_t>` of src/library/lib/text.h over `std::strtoull`, and `Numeric::cast` of
-- src/library/lib/numeric.h, which is `std::to_string`. A `size_t` has 64 bits.
use Prim.Native.Nat.{min}
use kkm_https_adapter.Base.{
  ℕ, zero, suc, ◌+◌, ◌-◌, ◌*◌, ◌/◌, ◌%◌, ◌≤◌, ◌<◌, Bool, true, false, ◌&&◌, ◌||◌, [], ◌∷◌, ◌≡◌,
  refl, ap, ◌∙◌, inl, inr, arith, Bytes, Option, some, none, is_nil, among, Bool-cases, All,
  if◌then◌else◌, ltb, leb, ◌==◌, Result, ok, err, DataError, invalid_value,
}
use kkm_https_adapter.Text.{before, skip}

abbrev pub size_max : ℕ
size_max = 18446744073709551615

unfoldable pub is_digit : ℕ → Bool
is_digit c = leb b'0' c && leb c b'9'

-- The digits at the front of a text, as a number, and the text behind them.
unfoldable pub scan : ℕ → Bytes → ℕ × Bytes
unfolding is_digit
scan n [] = (n, [])
scan n (c ∷ t) = if is_digit c then scan (n * 10 + (c - b'0')) t else (n, c ∷ t)

-- What `std::isspace` accepts.
abbrev spaces : Bytes
spaces = 32 ∷ 9 ∷ 10 ∷ 11 ∷ 12 ∷ 13 ∷ []

abbrev unsigned : Bytes → Bytes
unsigned [] = []
unsigned (c ∷ t) = if c == b'+' then t else c ∷ t

abbrev saturate : ℕ × Bytes → ℕ × Bytes
saturate (n, end) = (min n size_max, end)

-- `strtoull(text, &end, 10)` of a text with no minus: the value and the text at `end`; `none` when
-- no digit is found and `end` is the text itself. A value that is too large becomes the largest.
unfoldable pub to_numeric : Bytes → Option (ℕ × Bytes)
unfolding skip is_digit scan
to_numeric text = elim (unsigned (skip spaces text)) [
  | [] ↦ none
  | c ∷ t ↦ if is_digit c then some (saturate (scan 0 (c ∷ t))) else none
]

-- `c_str()`: what a C function sees of a string.
abbrev pub c_str : Bytes → Bytes
c_str text = before (0 ∷ []) text

abbrev at_end : Option (ℕ × Bytes) → Result DataError ℕ
at_end none = err invalid_value
at_end (some (value, end)) = if is_nil end then ok value else err invalid_value

unfoldable pub cast_size : Bytes → Result DataError ℕ
unfolding before among to_numeric
cast_size text =
    if is_nil (c_str text) || among b'-' (c_str text)
    then err invalid_value
    else at_end (to_numeric (c_str text))

-- `std::to_string`: the last digit first, each put in front of those behind it.
unfoldable pub digits : ℕ → ℕ → Bytes → Bytes
digits zero n acc = acc
digits (suc fuel) n acc =
    let more = digits fuel (n / 10) ((b'0' + n % 10) ∷ acc) in
    if ltb n 10 then (b'0' + n) ∷ acc else more

unfoldable pub decimal : ℕ → Bytes
unfolding digits
decimal n = digits (suc n) n []

is_digit_lem : (d : ℕ) → d < 10 → is_digit (b'0' + d) ≡ true
unfolding is_digit
is_digit_lem d h = ground arith

scan-digit : (m d : ℕ) (t : Bytes) → d < 10 → scan m ((b'0' + d) ∷ t) ≡ scan (m * 10 + d) t
unfolding scan
scan-digit m d t h =
    let same : m * 10 + (b'0' + d - b'0') ≡ m * 10 + d = omega arith in
    rw (is_digit_lem d h) (ap (λ k. scan k t) same)

scan-digits : (fuel n : ℕ) (acc : Bytes) → n < fuel → scan 0 (digits fuel n acc) ≡ scan n acc
unfolding digits
scan-digits zero n acc h = elim h [ ]
scan-digits (suc fuel) n acc h = elim (Bool-cases (ltb n 10)) [
  | inl small ↦
      let same : 0 * 10 + n ≡ n = omega arith in
      rw small (scan-digit 0 n acc (ground arith) ∙ ap (λ k. scan k acc) same)
  | inr big ↦
      let same : n / 10 * 10 + n % 10 ≡ n = omega arith in
      rw big (
        scan-digits fuel (n / 10) ((b'0' + n % 10) ∷ acc) (ground arith)
        ∙ (scan-digit (n / 10) (n % 10) acc (omega arith) ∙ ap (λ k. scan k acc) same))
]

abbrev IsDigits : Bytes → Type 0
IsDigits = All (λ c. is_digit c ≡ true)

digits-IsDigits : (fuel n : ℕ) (acc : Bytes) → IsDigits acc → IsDigits (digits fuel n acc)
unfolding digits
digits-IsDigits zero n acc h = h
digits-IsDigits (suc fuel) n acc h = elim (Bool-cases (ltb n 10)) [
  | inl small ↦ rw small (is_digit_lem n (ground arith), h)
  | inr big ↦ rw big (
      digits-IsDigits fuel (n / 10) ((b'0' + n % 10) ∷ acc)
        (is_digit_lem (n % 10) (omega arith), h))
]

digits-nonempty : (fuel n : ℕ) (c : ℕ) (t : Bytes) → is_nil (digits fuel n (c ∷ t)) ≡ false
unfolding digits
digits-nonempty zero n c t = refl
digits-nonempty (suc fuel) n c t =
    ground (arith, digits-nonempty fuel (n / 10) (b'0' + n % 10) (c ∷ t))

decimal-nonempty : (n : ℕ) → is_nil (decimal n) ≡ false
unfolding decimal
decimal-nonempty n = ground (arith, digits-nonempty n (n / 10) (b'0' + n % 10) [])

pub decimal-IsDigits : (n : ℕ) → IsDigits (decimal n)
unfolding decimal
decimal-IsDigits n = digits-IsDigits (suc n) n [] tt

scan-decimal : (n : ℕ) → scan 0 (decimal n) ≡ (n, [])
unfolding decimal scan
scan-decimal n = scan-digits (suc n) n [] (omega arith)

-- Digits are no blanks and no signs.
digit_is_plain :
    (c : ℕ)
    → is_digit c ≡ true
    → (among c spaces ≡ false)
      × (among c (0 ∷ []) ≡ false)
      × ((c == b'+') ≡ false)
      × ((b'-' == c) ≡ false)
unfolding is_digit among
digit_is_plain c h = ground arith

c_str_digits : (t : Bytes) → IsDigits t → c_str t ≡ t
unfolding before
c_str_digits [] h = refl
c_str_digits (c ∷ t) (h, k) = rw (digit_is_plain c h).1 (ap (◌∷◌ c) (c_str_digits t k))

no_minus : (t : Bytes) → IsDigits t → among b'-' t ≡ false
unfolding among
no_minus [] h = refl
no_minus (c ∷ t) (h, k) = rw (digit_is_plain c h).3 (no_minus t k)

to_numeric-digits :
    (t : Bytes) → is_nil t ≡ false → IsDigits t → to_numeric t ≡ some (saturate (scan 0 t))
unfolding to_numeric skip
to_numeric-digits [] e h = cc
to_numeric-digits (c ∷ t) e (h, k) =
    let plain = digit_is_plain c h in rw (plain.0, to_numeric) (ground arith)

-- Digits are read as the number that they write, up to the largest `size_t`.
cast_size-digits :
    (t : Bytes) (n : ℕ)
    → is_nil t ≡ false
    → IsDigits t
    → scan 0 t ≡ (n, [])
    → cast_size t ≡ ok (min n size_max)
unfolding cast_size
cast_size-digits t n e h s =
    rw (c_str_digits t h, e, no_minus t h) (rw (to_numeric-digits t e h, s) refl)

-- A number that a `size_t` holds is read back from its decimal text.
pub cast_size-decimal : (n : ℕ) → n ≤ size_max → cast_size (decimal n) ≡ ok n
cast_size-decimal n h =
    cast_size-digits (decimal n) n (decimal-nonempty n) (decimal-IsDigits n) (scan-decimal n)
    ∙ ap ok (omega arith)
