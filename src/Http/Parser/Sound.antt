-- ===== src/Http/Parser/Sound.antt =====
-- What holds of the parser between two calls of the reader, by the reader that comes next.
use mathlib.Core.Path.{subst}
use mathlib.Core.Option.{some-injective}
use kkm_https_adapter.Base.{
  ℕ, zero, suc, ◌<◌, ◌≤◌, true, false, ◌≡◌, refl, sym, ap, ◌∙◌, arith, Option, some, List, [], ◌∷◌,
  Bytes, length, inl, inr, Bool-cases, Result, ok, err, if◌then◌else◌, is_nil, ◌⊎◌, equal,
  DataError, ltb, ◌+◌, utf8, ◌||◌,
}
use kkm_https_adapter.Http.{get, post, is_ok, new_request, IpAddress}
use kkm_https_adapter.Text.Number.{cast_size}
use kkm_https_adapter.Text.{before, from, rest_of, trim}
use kkm_https_adapter.Http.Parser.Input.{Stream, open_stream, read_all_lem, get_line}
use kkm_https_adapter.Http.Parser.{
  Parser, Reader, parse_method, parse_header, parse_body, dummy_reader, Outcome, done, threw, stuck,
  read_by, run, parse, after_header, read_header, read_method, caught, settle, choose_method,
  path_end, end_of_header, with_field, body_size_limit, with_size, new_parser, expecting,
}

-- The request line is still to come; header lines are to come; the body is to come; nothing more is
-- read. A request that was not refused has a method that the server knows.
abbrev Phase : Reader → Parser → Type 0
Phase parse_method p =
    (p.step ≡ 0) × (p.request.body ≡ []) × (is_ok p.request.response.status ≡ true)
Phase parse_header p =
    (p.step ≡ 1)
    × (p.request.body ≡ [])
    × (is_ok p.request.response.status ≡ true)
    × ((p.request.method ≡ get) ⊎ (p.request.method ≡ post))
Phase parse_body p =
    (p.step ≡ 2)
    × (is_ok p.request.response.status ≡ true)
    × (p.request.method ≡ post)
    × (0 < p.expected_body_size)
Phase dummy_reader p =
    (p.request.body ≡ [])
    × ((is_ok p.request.response.status ≡ false)
        ⊎ ((p.step ≡ 1) × ((p.request.method ≡ get) ⊎ (p.request.method ≡ post))))

abbrev pub IsSound : Parser → Type 0
IsSound p = (p.expected_body_size ≤ body_size_limit) × Phase p.reader p

choose_method-IsSound :
    (hint : List Bytes) (p : Parser)
    → p.expected_body_size ≤ body_size_limit
    → Phase parse_method p
    → IsSound (choose_method hint p)
unfolding choose_method
choose_method-IsSound [] p b h = (b, (h.1, inl refl))
choose_method-IsSound (first ∷ rest) p b h = ground arith

read_method-IsSound :
    (line : Bytes) (p : Parser)
    → p.expected_body_size ≤ body_size_limit
    → Phase parse_method p
    → IsSound (read_method line p)
unfolding read_method
read_method-IsSound line p b h = elim (Bool-cases (is_nil (from (utf8 " ") line))) [
  | inl e ↦ rw e (b, (h.1, inl refl))
  | inr e ↦
      rw e
        (elim (Bool-cases (
          is_nil (from path_end (rest_of (from (utf8 " ") line)))
          || is_nil (before path_end (rest_of (from (utf8 " ") line))))) [
            | inl e' ↦ rw e' (b, (h.1, inl refl))
            | inr e' ↦ rw e' (choose_method-IsSound _ _ b h)
          ])
]

abbrev Kept : Result Parser Parser → Type 0
Kept (ok p) = IsSound p
Kept (err p) = IsSound (caught p)

-- Whatever is thrown while the body is still empty, the request is then refused.
caught-IsSound :
    (p : Parser) → p.expected_body_size ≤ body_size_limit → p.request.body ≡ [] → IsSound (caught p)
unfolding caught
caught-IsSound p b h = ground arith

with_size-IsSound :
    (p : Parser) (n : Result DataError ℕ)
    → p.expected_body_size ≤ body_size_limit
    → p.reader ≡ parse_header
    → Phase parse_header p
    → Kept (with_size p n)
with_size-IsSound p (err e) b r h = caught-IsSound p b h.1
with_size-IsSound p (ok n) b r h = elim (Bool-cases (ltb body_size_limit n)) [
  | inl e ↦ rw e (omega arith, (h.1, inl refl))
  | inr e ↦ rw (e, r) (ground arith, h)
]

end_of_header-IsSound :
    (p : Parser)
    → p.expected_body_size ≤ body_size_limit
    → Phase parse_header p
    → IsSound (end_of_header p)
unfolding end_of_header
end_of_header-IsSound p b h = ground arith

with_field-IsSound :
    (name value : Bytes) (p : Parser)
    → p.expected_body_size ≤ body_size_limit
    → p.reader ≡ parse_header
    → Phase parse_header p
    → Kept (with_field name value p)
unfolding with_field
with_field-IsSound name value p b r h = elim (Bool-cases (equal name (utf8 "content-length"))) [
  | inl e ↦ rw e (with_size-IsSound _ (cast_size value) b r h)
  | inr e ↦ rw (e, r) (b, h)
]

read_header-IsSound :
    (line : Bytes) (p : Parser)
    → p.expected_body_size ≤ body_size_limit
    → p.reader ≡ parse_header
    → Phase parse_header p
    → Kept (read_header line p)
unfolding read_header
read_header-IsSound line p b r h = elim (Bool-cases (is_nil (trim line))) [
  | inl e ↦ rw e (end_of_header-IsSound p b h)
  | inr e ↦ rw e (with_field-IsSound _ _ p b r h)
]

abbrev Stays : Outcome → Type 0
Stays (done p s) = IsSound p
Stays (threw p) = IsSound (caught p)
Stays stuck = Unit

after_header-Stays : (r : Result Parser Parser) (s : Stream) → Kept r → Stays (after_header r s)
after_header-Stays (ok p) s h = h
after_header-Stays (err p) s h = h

read_by-Stays :
    (r : Reader) (p : Parser) (s : Stream) → p.reader ≡ r → IsSound p → Stays (read_by r p s)
unfolding read_by
read_by-Stays parse_method p s e (b, h) = read_method-IsSound _ p b (rw e at h)
read_by-Stays parse_header p s e (b, h) =
    after_header-Stays _ _ (read_header-IsSound (get_line s).0 p b e (rw e at h))
read_by-Stays parse_body p s e (b, h) =
    rw (read_all_lem (suc (length s.waiting)) 2048 p.request.body s (omega arith) (omega arith), e)
      (b, rw e at h)
read_by-Stays dummy_reader p s e h = h

settle-IsSound :
    (loop : Parser → Stream → Option Parser) (o : Outcome) (q : Parser)
    → ((p : Parser) (s : Stream) → IsSound p → loop p s ≡ some q → IsSound q)
    → Stays o
    → settle loop o ≡ some q
    → IsSound q
unfolding settle
settle-IsSound loop (done p s) q h k e = h p s k e
settle-IsSound loop (threw p) q h k e = subst IsSound (some-injective _ _ e) k
settle-IsSound loop stuck q h k e = cc

run-IsSound :
    (fuel : ℕ) (p : Parser) (s : Stream) (q : Parser)
    → IsSound p
    → run fuel p s ≡ some q
    → IsSound q
unfolding run
run-IsSound zero p s q h e = cc
run-IsSound (suc fuel) p s q h e =
    let more = settle (run fuel) (read_by p.reader p s) in
    elim (Bool-cases s.good) [
      | inl g ↦
          settle-IsSound (run fuel) (read_by p.reader p s) q (λ p' s'. run-IsSound fuel p' s' q)
            (read_by-Stays p.reader p s refl h) (sym (ap (λ b. if b then more else some p) g) ∙ e)
      | inr g ↦
          subst IsSound (some-injective _ _ (sym (ap (λ b. if b then more else some p) g) ∙ e)) h
    ]

-- Parsing keeps the parser sound, and a new one is: no size above the limit is ever expected, a body
-- is only read for a POST that declared its size, and a request that ends with the status Ok is a
-- GET or a POST.
pub parse-IsSound :
    (p : Parser) (buffer : Bytes) (q : Parser) → IsSound p → parse p buffer ≡ some q → IsSound q
unfolding parse
parse-IsSound p buffer q h e = run-IsSound (suc (suc (length buffer))) p (open_stream buffer) q h e

pub new_parser-IsSound :
    (remote : IpAddress) (id : ℕ) → IsSound (new_parser (new_request remote id))
unfolding new_parser new_request
new_parser-IsSound remote id = (omega arith, (refl, refl, refl))

-- More is expected only while the body of a POST is being read.
pub expecting-IsBody :
    (p : Parser)
    → IsSound p
    → 0 < expecting p
    → (p.reader ≡ parse_body)
      × (p.request.method ≡ post)
      × (is_ok p.request.response.status ≡ true)
      × (expecting p + length p.request.body ≡ p.expected_body_size)
unfolding expecting
expecting-IsBody p h k = on p.reader refl h.1
  where
    on :
        (r : Reader)
        → p.reader ≡ r
        → Phase r p
        → (p.reader ≡ parse_body)
          × (p.request.method ≡ post)
          × (is_ok p.request.response.status ≡ true)
          × (expecting p + length p.request.body ≡ p.expected_body_size)
    on parse_method e f = ground arith
    on parse_header e f = ground arith
    on parse_body e f = ground arith
    on dummy_reader e f = ground arith
