-- ===== src/Text/Join.antt =====
-- The pieces that `splitTo` gives, and `joinTo` as its inverse.
use kkm_https_adapter.Base.{
  ℕ, true, false, List, [], ◌∷◌, ◌++◌, ◌≡◌, refl, sym, ap, ◌∙◌, inl, inr, Bytes, is_nil, among,
  Bool-cases, append_assoc, append-nil, All, if◌then◌else◌,
}
use kkm_https_adapter.Text.{join_to}
use kkm_https_adapter.Text.Split.{words, words_from, close}

abbrev pub Free : Bytes → Bytes → Type 0
Free delims = All (λ c. among c delims ≡ false)

-- A word: not empty, and with none of the delimiters in it.
abbrev pub IsPiece : Bytes → Bytes → Type 0
IsPiece delims w = (is_nil w ≡ false) × Free delims w

Free-append : (d u w : Bytes) → Free d u → Free d w → Free d (u ++ w)
Free-append d [] w h k = k
Free-append d (c ∷ u) w h k = (h.0, Free-append d u w h.1 k)

close-IsPiece :
    (d w : Bytes) (ws : List Bytes)
    → Free d w
    → All (IsPiece d) ws
    → All (IsPiece d) (close w ++ ws)
close-IsPiece d [] ws h k = k
close-IsPiece d (c ∷ w) ws h k = ((refl, h), k)

words_from-IsPiece : (d w t : Bytes) → Free d w → All (IsPiece d) (words_from d w t)
unfolding words_from
words_from-IsPiece d [] [] h = tt
words_from-IsPiece d (c ∷ w) [] h = ((refl, h), tt)
words_from-IsPiece d w (c ∷ t) h = elim (Bool-cases (among c d)) [
  | inl e ↦ rw e (close-IsPiece d w (words d t) h (words_from-IsPiece d [] t tt))
  | inr e ↦ rw e (words_from-IsPiece d (w ++ c ∷ []) t (Free-append d w (c ∷ []) h (e, tt)))
]

-- All the words one after the other.
abbrev pub flatten : List Bytes → Bytes
flatten [] = []
flatten (w ∷ ws) = w ++ flatten ws

-- The bytes of a text that are no delimiters.
abbrev pub undelimited : Bytes → Bytes → Bytes
undelimited d [] = []
undelimited d (c ∷ t) = if among c d then undelimited d t else c ∷ undelimited d t

flatten-close : (w : Bytes) (ws : List Bytes) → flatten (close w ++ ws) ≡ w ++ flatten ws
flatten-close [] ws = refl
flatten-close (c ∷ w) ws = refl

flatten-words_from : (d w t : Bytes) → flatten (words_from d w t) ≡ w ++ undelimited d t
unfolding words_from
flatten-words_from d [] [] = refl
flatten-words_from d (c ∷ w) [] = refl
flatten-words_from d w (c ∷ t) = elim (Bool-cases (among c d)) [
  | inl e ↦ rw e (flatten-close w (words d t) ∙ ap (◌++◌ w) (flatten-words_from d [] t))
  | inr e ↦ rw e (flatten-words_from d (w ++ c ∷ []) t ∙ append_assoc w (c ∷ []) (undelimited d t))
]

-- Every word is a piece, and together the words hold, in order, the bytes that are no delimiters.
pub words_lem :
    (d t : Bytes) → All (IsPiece d) (words d t) × (flatten (words d t) ≡ undelimited d t)
words_lem d t = (words_from-IsPiece d [] t tt, flatten-words_from d [] t)

-- What `joinTo` appends for each further part.
abbrev glued : ℕ → List Bytes → Bytes
glued x [] = []
glued x (w ∷ ws) = x ∷ (w ++ glued x ws)

join_to-glued :
    (d : Bytes) (r : Bytes) (ws : List Bytes) (x : ℕ)
    → is_nil r ≡ false
    → All (IsPiece d) ws
    → join_to r ws (x ∷ []) ≡ r ++ glued x ws
unfolding join_to
join_to-glued d r [] x h k = sym (append-nil r)
join_to-glued d [] (w ∷ ws) x h k = cc
join_to-glued d (b ∷ r) ([] ∷ ws) x h ((k, _), ks) = cc
join_to-glued d (b ∷ r) ((c ∷ w) ∷ ws) x h (k, ks) =
    join_to-glued d ((b ∷ r) ++ (x ∷ c ∷ w)) ws x refl ks
    ∙ append_assoc (b ∷ r) (x ∷ c ∷ w) (glued x ws)

pub words_from-append :
    (d u w t : Bytes) → Free d w → words_from d u (w ++ t) ≡ words_from d (u ++ w) t
unfolding words_from
words_from-append d u [] t h = ap (λ v. words_from d v t) (sym (append-nil u))
words_from-append d u (c ∷ w) t (e, h) = rw e (
    words_from-append d (u ++ c ∷ []) w t h
    ∙ ap (λ v. words_from d v t) (append_assoc u (c ∷ []) w))

pub words_from-glued :
    (d : Bytes) (w : Bytes) (ws : List Bytes) (x : ℕ)
    → among x d ≡ true
    → All (IsPiece d) ws
    → words_from d w (glued x ws) ≡ close w ++ ws
unfolding words_from
words_from-glued d w [] x h k = sym (append-nil (close w))
words_from-glued d w ([] ∷ ws) x h ((k, _), ks) = cc
words_from-glued d w ((c ∷ v) ∷ ws) x h ((k, free), ks) = rw h (
    ap (◌++◌ (close w))
      (words_from-append d [] (c ∷ v) (glued x ws) free ∙ words_from-glued d (c ∷ v) ws x h ks))

-- Words joined by a delimiter are split back into the same words.
pub words-join_to :
    (d : Bytes) (ws : List Bytes) (x : ℕ)
    → among x d ≡ true
    → All (IsPiece d) ws
    → words d (join_to [] ws (x ∷ [])) ≡ ws
unfolding join_to words_from
words-join_to d [] x h k = refl
words-join_to d ([] ∷ ws) x h ((k, _), ks) = cc
words-join_to d ((c ∷ w) ∷ ws) x h ((k, free), ks) =
    ap (words d) (join_to-glued d (c ∷ w) ws x refl ks)
    ∙ (words_from-append d [] (c ∷ w) (glued x ws) free ∙ words_from-glued d (c ∷ w) ws x h ks)
