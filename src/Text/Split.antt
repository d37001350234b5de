-- ===== src/Text/Split.antt =====
-- `splitTo`: its loop against a recursive description, what the pieces are, and joining them back.
use kkm_https_adapter.Base.{
  ℕ, zero, suc, ◌<◌, Bool, false, List, [], ◌∷◌, ◌++◌, ◌≡◌, refl, sym, ap, ◌∙◌, inl, inr, arith,
  Bytes, some, is_nil, among, length, Bool-cases, List-cases, append_assoc, append-nil,
  if◌then◌else◌, ◌≤◌, ◌||◌,
}
use kkm_https_adapter.Text.{before, from, skip, split_loop, split_to, prepend}

abbrev pub close : Bytes → List Bytes
close [] = []
close (c ∷ w) = (c ∷ w) ∷ []

-- The words of a text, read byte by byte; the first argument after the delimiters is the word that
-- is under way.
unfoldable pub words_from : Bytes → Bytes → Bytes → List Bytes
words_from delims w [] = close w
words_from delims w (c ∷ t) =
    if among c delims then close w ++ words_from delims [] t else words_from delims (w ++ c ∷ []) t

abbrev pub words : Bytes → Bytes → List Bytes
words delims = words_from delims []

words-skip : (d t : Bytes) → words d (skip d t) ≡ words d t
unfolding words_from skip
words-skip d [] = refl
words-skip d (c ∷ t) = elim (Bool-cases (among c d)) [
  | inl h ↦ rw h (words-skip d t)
  | inr h ↦ ground arith
]

-- Up to the next delimiter the bytes join the word.
words_from-nil : (d w t : Bytes) → from d t ≡ [] → words_from d w t ≡ close (w ++ t)
unfolding words_from from
words_from-nil d w [] e = ap close (sym (append-nil w))
words_from-nil d w (c ∷ t) e = elim (Bool-cases (among c d)) [
  | inl h ↦ ground arith
  | inr h ↦
      rw h (
        words_from-nil d (w ++ c ∷ []) t (rw (h, from) at e) ∙ ap close (append_assoc w (c ∷ []) t))
]

words_from-delim :
    (d w t : Bytes) (x : ℕ) (r : Bytes)
    → from d t ≡ x ∷ r
    → words_from d w t ≡ close (w ++ before d t) ++ words d r
unfolding words_from from before
words_from-delim d w [] x r e = cc
words_from-delim d w (c ∷ t) x r e = elim (Bool-cases (among c d)) [
  | inl h ↦ ground (arith, append-nil w)
  | inr h ↦
      ground (arith, words_from-delim d (w ++ c ∷ []) t x r, append_assoc w (c ∷ []) (before d t))
]

length-skip : (d t : Bytes) → length (skip d t) ≤ length t
unfolding skip
length-skip d [] = omega arith
length-skip d (c ∷ t) = ground (arith, length-skip d t)

length-from : (d t : Bytes) → length (from d t) ≤ length t
unfolding from
length-from d [] = omega arith
length-from d (c ∷ t) = ground (arith, length-from d t)

skip_head : (d t : Bytes) (c : ℕ) (r : Bytes) → skip d t ≡ c ∷ r → among c d ≡ false
unfolding skip
skip_head d [] c r e = cc
skip_head d (x ∷ t) c r e = ground (arith, skip_head d t c r)

words_none : (d t : Bytes) → skip d t ≡ [] → words d t ≡ []
unfolding words_from
words_none d t e = sym (words-skip d t) ∙ ap (words d) e

words_start :
    (d t : Bytes) (c : ℕ) (r : Bytes) → skip d t ≡ c ∷ r → words d t ≡ words_from d (c ∷ []) r
unfolding words_from
words_start d t c r e = sym (words-skip d t) ∙ ap (words d) e ∙ rw (skip_head d t c r e) refl

-- A round of the loop leaves less text than it was given.
round_shrinks :
    (d t : Bytes) (c : ℕ) (rest : Bytes) (x : ℕ) (r : Bytes)
    → skip d t ≡ c ∷ rest
    → from d rest ≡ x ∷ r
    → suc (length r) < length t
round_shrinks d t c rest x r e e' =
    omega (arith, ap length e, ap length e', length-skip d t, length-from d rest)

-- The loop computes the words, and one round more than the text is long suffices.
pub split_loop-eq-words :
    (fuel : ℕ) (d t : Bytes) → length t < fuel → split_loop fuel d t ≡ some (words d t)
unfolding split_loop
split_loop-eq-words zero d t h = elim h [ ]
split_loop-eq-words (suc fuel) d t h = elim (List-cases (skip d t)) [
  | inl e ↦ rw (e, split_loop) (ap some (sym (words_none d t e)))
  | inr (c, rest, e) ↦ elim (List-cases (from d rest)) [
    | inl e' ↦
        rw (e, split_loop)
          (rw (e', split_loop)
            (ap some (sym (words_start d t c rest e ∙ words_from-nil d (c ∷ []) rest e'))))
    | inr (x, r, e') ↦
        let shrinks = round_shrinks d t c rest x r e e' in
        rw (e, split_loop)
          (rw (e', split_loop)
            (ap (prepend (c ∷ before d rest)) (split_loop-eq-words fuel d r (omega arith))
              ∙ ap some (sym (words_start d t c rest e ∙ words_from-delim d (c ∷ []) rest x r e'))))
  ]
]

-- `splitTo` never runs out of rounds: it adds the words of the text to the receiver, which it clears
-- first if it is told to; with no text or no delimiters it adds nothing and returns 0.
pub split_to_lem :
    (receiver : List Bytes) (t d : Bytes) (clear : Bool)
    → split_to receiver t d clear ≡ (
        let kept = if clear then [] else receiver in
        if is_nil t || is_nil d then (kept, 0) else (kept ++ words d t, length (kept ++ words d t)))
unfolding split_to
split_to_lem receiver t d clear = rw (split_loop-eq-words (suc (length t)) d t (omega arith)) refl
