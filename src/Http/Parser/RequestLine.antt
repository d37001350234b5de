-- ===== src/Http/Parser/RequestLine.antt =====
-- `parseMethod` on a line that holds a verb, a space, and a path.
use mathlib.Core.List.{map-append}
use kkm_https_adapter.Base.{
  ℕ, ◌+◌, true, false, List, [], ◌∷◌, ◌++◌, ◌≡◌, ◌≢◌, refl, ap, ◌∙◌, arith, Bytes, utf8, is_nil,
  among, equal, equal_iff, equal_refl,
}
use kkm_https_adapter.Text.{lower, to_lower, split_to}
use kkm_https_adapter.Text.Split.{words, words_from, close, split_to_lem}
use kkm_https_adapter.Text.Join.{Free, IsPiece, words_from-append}
use kkm_https_adapter.Text.Variable.{before-append, from-append}
use kkm_https_adapter.Http.{Method, get, post, Status}
use kkm_https_adapter.Http.Parser.{
  Parser, parse_header, read_method, choose_method, path_end, hint_delims, refuse,
}

-- The delimiters of the hint are their own lower case.
among-to_lower : (c : ℕ) → among (to_lower c) hint_delims ≡ among c hint_delims
unfolding among to_lower
among-to_lower c = ground arith

Free-lower : (t : Bytes) → Free hint_delims t → Free hint_delims (lower t)
unfolding lower
Free-lower [] h = tt
Free-lower (c ∷ t) (h, k) = (among-to_lower c ∙ h, Free-lower t k)

space-Free : (t : Bytes) → Free hint_delims t → Free (utf8 " ") t
unfolding among
space-Free [] h = tt
space-Free (c ∷ t) (h, k) = (ground arith, space-Free t k)

is_nil-lower : (t : Bytes) → is_nil (lower t) ≡ is_nil t
unfolding lower
is_nil-lower [] = refl
is_nil-lower (c ∷ t) = refl

close-cons : (w : Bytes) → is_nil w ≡ false → close w ≡ w ∷ []
close-cons [] h = cc
close-cons (c ∷ w) h = refl

-- The hint of such a line: the verb, and the words of the path, all in lower case.
abbrev pub hint_of : Bytes → Bytes → List Bytes
hint_of u w = lower u ∷ words hint_delims (lower w)

words-line :
    (u w : Bytes) → IsPiece hint_delims u → words hint_delims (lower (u ++ b' ' ∷ w)) ≡ hint_of u w
unfolding lower words_from among
words-line u w (e, h) =
    ap (words hint_delims) (map-append to_lower u (b' ' ∷ w))
    ∙ (words_from-append hint_delims [] (lower u) (b' ' ∷ lower w) (Free-lower u h)
        ∙ ap (λ x. x ++ words hint_delims (lower w)) (close-cons (lower u) (is_nil-lower u ∙ e)))

abbrev pub line_of : Bytes → Bytes → ℕ → Bytes → Bytes
line_of u w x rest = u ++ b' ' ∷ (w ++ x ∷ rest)

abbrev pub with_line : Bytes → Bytes → Parser → Parser
with_line u w p = record p {
  request = record (p.request) { verb = u; path = w; hint = hint_of u w };
}

is_nil-end : (w : Bytes) (x : ℕ) (t : Bytes) → is_nil (w ++ x ∷ t) ≡ false
is_nil-end [] x t = refl
is_nil-end (c ∷ w) x t = refl

split_line :
    (u w : Bytes)
    → IsPiece hint_delims u
    → (split_to [] (lower (u ++ b' ' ∷ w)) hint_delims false).0 ≡ hint_of u w
unfolding lower
split_line u w h =
    rw (split_to_lem [] (lower (u ++ b' ' ∷ w)) hint_delims false)
      (rw (is_nil-lower (u ++ b' ' ∷ w), is_nil-end u b' ' w) (words-line u w h))

space_is_space : among b' ' (utf8 " ") ≡ true
unfolding among
space_is_space = refl

read_line :
    (u w : Bytes) (x : ℕ) (rest : Bytes) (p : Parser)
    → IsPiece hint_delims u
    → Free path_end w
    → is_nil w ≡ false
    → among x path_end ≡ true
    → p.request.hint ≡ []
    → read_method (line_of u w x rest) p ≡ choose_method (hint_of u w) (with_line u w p)
unfolding read_method
read_line u w x rest p h f n e k =
    let free = space-Free u h.1 in
    let tail = w ++ x ∷ rest in
    let hint =
      ap (λ l. (split_to l (lower (u ++ b' ' ∷ w)) hint_delims false).0) k ∙ split_line u w h in
    rw
      (
        from-append (utf8 " ") u b' ' tail free space_is_space,
        before-append (utf8 " ") u b' ' tail free space_is_space,
      )
      (rw (from-append path_end w x rest f e, before-append path_end w x rest f e)
        (rw n (rw hint refl)))

abbrev pub name_of : Method → Bytes
name_of get = utf8 "get"
name_of post = utf8 "post"
name_of _ = []

get_not_post : equal (utf8 "get") (utf8 "post") ≡ false
unfolding equal
get_not_post = refl

-- The parser with the line and the method, in front of the header lines.
abbrev pub accepted : Method → Bytes → Bytes → Parser → Parser
accepted m u w p = record p {
  request = record (p.request) { verb = u; path = w; hint = hint_of u w; method = m };
  reader = parse_header;
  step = p.step + 1;
}

chosen :
    (m : Method) (u w : Bytes) (p : Parser)
    → m ≢ Method.not_implemented
    → lower u ≡ name_of m
    → choose_method (hint_of u w) (with_line u w p) ≡ accepted m u w p
unfolding choose_method
chosen get u w p ne same =
    let other = ap (λ t. equal t (utf8 "post")) same ∙ get_not_post in
    let this = ap (λ t. equal t (utf8 "get")) same ∙ equal_refl (utf8 "get") in
    rw other (rw this refl)
chosen post u w p ne same =
    let this = ap (λ t. equal t (utf8 "post")) same ∙ equal_refl (utf8 "post") in rw this refl
chosen _ u w p ne same = absurd (ne refl)

module _ (u w : Bytes) (x : ℕ) (rest : Bytes) (p : Parser) (h : IsPiece hint_delims u)
    (f : Free path_end w) (n : is_nil w ≡ false) (e : among x path_end ≡ true)
    (k : p.request.hint ≡ []) where
  -- A line with a verb, one space, a path, and then a space or what else may end a path: if the verb
  -- is GET or POST in any letter case, the parser keeps the verb and the path as they were sent, sets
  -- the method and the hint (the verb and the parts of the path, in lower case), and goes on to the
  -- header lines.
  pub read_method_known :
      (m : Method)
      → m ≢ Method.not_implemented
      → lower u ≡ name_of m
      → read_method (line_of u w x rest) p ≡ accepted m u w p
  read_method_known m ne same = read_line u w x rest p h f n e k ∙ chosen m u w p ne same

  -- Such a line with any other verb is refused with Not Implemented, and nothing more is read.
  pub read_method_unknown :
      lower u ≢ name_of get
      → lower u ≢ name_of post
      → read_method (line_of u w x rest) p ≡ refuse Status.not_implemented (with_line u w p)
  unfolding choose_method
  read_method_unknown not_get not_post =
      read_line u w x rest p h f n e k
      ∙ ground (arith, equal_iff (lower u) (name_of get), equal_iff (lower u) (name_of post))
