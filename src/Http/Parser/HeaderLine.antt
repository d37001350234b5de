-- ===== src/Http/Parser/HeaderLine.antt =====
-- `parseHeader` on a line that ends in a carriage return, as HTTP sends it.
use kkm_https_adapter.Base.{
  ℕ, ◌<◌, ◌≤◌, Bool, true, false, [], ◌∷◌, ◌++◌, ◌≡◌, ◌≢◌, refl, ap, ◌∙◌, arith, Bytes, utf8,
  is_nil, among, equal_iff, equal_refl, ltb, ok,
}
use kkm_https_adapter.Text.{from_first, to_last, no_trim_predicate, trim, lower, assignment_signs}
use kkm_https_adapter.Text.Trim.{IsTrimmed}
use kkm_https_adapter.Text.Join.{Free}
use kkm_https_adapter.Text.Number.{decimal, size_max, cast_size-decimal}
use kkm_https_adapter.Text.Variable.{split_variable_lem}
use kkm_https_adapter.Http.{bad_request, text, set_response}
use kkm_https_adapter.Http.Maps.{assign}
use kkm_https_adapter.Http.Parser.{
  Parser, dummy_reader, read_header, with_field, body_size_limit, body_size_limit_exceeded,
}

to_last-append :
    (p : ℕ → Bool) (t : Bytes) (c : ℕ) → p c ≡ false → to_last p (t ++ c ∷ []) ≡ to_last p t
unfolding to_last
to_last-append p [] c h = rw h refl
to_last-append p (d ∷ t) c h = rw (to_last-append p t c h) refl

from_first-append :
    (p : ℕ → Bool) (t r : Bytes)
    → is_nil (from_first p t) ≡ false
    → from_first p (t ++ r) ≡ from_first p t ++ r
unfolding from_first
from_first-append p [] r h = cc
from_first-append p (c ∷ t) r h = ground (arith, from_first-append p t r)

return_is_blank : no_trim_predicate 13 ≡ false
unfolding no_trim_predicate
return_is_blank = refl

-- The carriage return behind a trimmed text is trimmed off.
trim_line : (l : Bytes) → is_nil l ≡ false → IsTrimmed l → trim (l ++ 13 ∷ []) ≡ l
unfolding trim
trim_line l n (f, t) =
    let p = no_trim_predicate in
    ap (to_last p) (from_first-append p l (13 ∷ []) (ap is_nil f ∙ n) ∙ ap (λ x. x ++ 13 ∷ []) f)
    ∙ (to_last-append p l 13 return_is_blank ∙ t)

is_nil-end : (w : Bytes) (x : ℕ) (t : Bytes) → is_nil (w ++ x ∷ t) ≡ false
is_nil-end [] x t = refl
is_nil-end (c ∷ w) x t = refl

module _ (u : Bytes) (x : ℕ) (t : Bytes) (p : Parser) (h : Free assignment_signs u)
    (e : among x assignment_signs ≡ true) (k : IsTrimmed (u ++ x ∷ t)) where
  field_line : read_header ((u ++ x ∷ t) ++ 13 ∷ []) p ≡ with_field (lower (trim u)) (trim t) p
  unfolding read_header
  field_line =
      rw (trim_line (u ++ x ∷ t) (is_nil-end u x t) k)
        (rw (is_nil-end u x t, split_variable_lem u x t true false assignment_signs h e) refl)

  -- A header line with a field that is not `content-length` sets that field, in lower case, to the
  -- trimmed value, and changes nothing else.
  pub other_field :
      lower (trim u) ≢ utf8 "content-length"
      → read_header ((u ++ x ∷ t) ++ 13 ∷ []) p
        ≡ ok (record p {
          request = record (p.request) {
            header = assign (lower (trim u)) (trim t) p.request.header;
          };
        })
  unfolding with_field
  other_field ne = field_line ∙ ground (arith, equal_iff (lower (trim u)) (utf8 "content-length"))

  -- A `content-length` that writes a number up to the limit is expected from then on.
  pub content_length_within :
      (n : ℕ)
      → lower (trim u) ≡ utf8 "content-length"
      → trim t ≡ decimal n
      → n ≤ body_size_limit
      → read_header ((u ++ x ∷ t) ++ 13 ∷ []) p
        ≡ ok (record p {
          request = record (p.request) {
            header = assign (utf8 "content-length") (decimal n) p.request.header;
          };
          expected_body_size = n;
        })
  unfolding with_field
  content_length_within n same value small =
      let read = cast_size-decimal n (omega arith) in
      let test : ltb body_size_limit n ≡ false = ground arith in
      field_line ∙ rw (same, value) (rw (equal_refl (utf8 "content-length"), read) (rw test refl))

  -- One that writes a larger number is refused with Bad Request and a message, nothing is expected,
  -- and nothing more is read.
  pub content_length_above :
      (n : ℕ)
      → lower (trim u) ≡ utf8 "content-length"
      → trim t ≡ decimal n
      → body_size_limit < n
      → n ≤ size_max
      → read_header ((u ++ x ∷ t) ++ 13 ∷ []) p
        ≡ ok (record p {
          request = set_response bad_request (text body_size_limit_exceeded) (record (p.request) {
            header = assign (utf8 "content-length") (decimal n) p.request.header;
          });
          reader = dummy_reader;
          expected_body_size = 0;
        })
  unfolding with_field
  content_length_above n same value large fits =
      let read = cast_size-decimal n fits in
      let test : ltb body_size_limit n ≡ true = ground arith in
      field_line ∙ rw (same, value) (rw (equal_refl (utf8 "content-length"), read) (rw test refl))
