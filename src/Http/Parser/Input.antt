-- ===== src/Http/Parser/Input.antt =====
-- `std::istream` over the waiting bytes: `std::getline`, `read` with `gcount`, `ignore`.
use kkm_https_adapter.Base.{
  ℕ, zero, suc, ◌≤◌, ◌<◌, Bool, true, false, not, [], ◌∷◌, ◌++◌, ◌≡◌, refl, ap, ◌∙◌, arith, Option,
  some, none, Bytes, is_nil, length, take, drop, take-append-drop, length-drop, if◌then◌else◌, leb,
  inl, inr, List-cases, Bool-cases, append_assoc,
}
use kkm_https_adapter.Text.{before, from, rest_of}

pub record Stream : Type 0 where
  pub waiting : Bytes
  pub good : Bool

abbrev pub open_stream : Bytes → Stream
open_stream t = record { waiting = t; good = true }

abbrev newline : Bytes
newline = 10 ∷ []

-- The line up to the next newline, which is taken away; at the end of the input the stream fails.
unfoldable pub get_line : Stream → Bytes × Stream
unfolding before from
get_line s = (
  before newline s.waiting,
  record {
    waiting = rest_of (from newline s.waiting);
    good = not (is_nil (from newline s.waiting));
  },
)

-- `read(buffer, size)`: the bytes that it has put into the buffer, and the stream behind it.
unfoldable pub read : ℕ → Stream → Bytes × Stream
read size s = (
  take size s.waiting,
  record { waiting = drop size s.waiting; good = leb size (length s.waiting) },
)

-- `while (stream.read(buffer, size)) body.append(…); body.append(buffer, gcount)`, on fuel.
unfoldable pub read_all : ℕ → ℕ → Bytes → Stream → Option (Bytes × Stream)
unfolding read
read_all zero size body s = none
read_all (suc fuel) size body s =
    let (chunk, s') = read size s in
    elim s'.good [ true ↦ read_all fuel size (body ++ chunk) s' | false ↦ some (body ++ chunk, s') ]

-- `ignore(max)`.
abbrev pub ignore : Stream → Stream
ignore s = record { waiting = []; good = false }

-- How much reading a stream still allows.
abbrev pub weight : Stream → ℕ
weight s = if s.good then suc (length s.waiting) else 0

length-from : (d t : Bytes) → length (from d t) ≤ length t
unfolding from
length-from d [] = omega arith
length-from d (c ∷ t) = ground (arith, length-from d t)

pub weight-get_line : (s : Stream) → s.good ≡ true → weight (get_line s).1 < weight s
unfolding get_line
weight-get_line s g = elim (List-cases (from newline s.waiting)) [
  | inl e ↦ rw (e, g) (omega arith)
  | inr (c, rest, e) ↦ rw (e, g) (omega (arith, ap length e, length-from newline s.waiting))
]

append_read : (size : ℕ) (body t : Bytes) → (body ++ take size t) ++ drop size t ≡ body ++ t
append_read size body t =
    append_assoc body (take size t) (drop size t) ∙ ap (◌++◌ body) (take-append-drop size t)

take_all : (size : ℕ) (t : Bytes) → leb size (length t) ≡ false → take size t ≡ t
take_all zero t h = absurd (ground arith)
take_all (suc n) [] h = refl
take_all (suc n) (c ∷ t) h = ap (◌∷◌ c) (take_all n t (ground arith))

drop_all : (size : ℕ) (t : Bytes) → leb size (length t) ≡ false → drop size t ≡ []
drop_all zero t h = absurd (ground arith)
drop_all (suc n) [] h = refl
drop_all (suc n) (c ∷ t) h = drop_all n t (ground arith)

-- With a buffer of any size but 0 the loop appends all that waits, and leaves the stream at its end.
pub read_all_lem :
    (fuel size : ℕ) (body : Bytes) (s : Stream)
    → 0 < size
    → length s.waiting < fuel
    → read_all fuel size body s ≡ some (body ++ s.waiting, record { waiting = []; good = false })
unfolding read_all
read_all_lem zero size body s h k = elim k [ ]
read_all_lem (suc fuel) size body s h k = elim (Bool-cases (leb size (length s.waiting))) [
  | inl more ↦
      rw (more, read_all)
        (read_all_lem fuel size (body ++ take size s.waiting)
            (record { waiting = drop size s.waiting; good = leb size (length s.waiting) }) h
            (ground (arith, length-drop size s.waiting))
          ∙ ap (λ b. some (b, record { waiting = []; good = false }))
              (append_read size body s.waiting))
  | inr last ↦ ground (arith, take_all size s.waiting last, drop_all size s.waiting last)
]
