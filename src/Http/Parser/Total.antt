-- ===== src/Http/Parser/Total.antt =====
-- The loop of `operator ()` ends.
use kkm_https_adapter.Base.{
  ℕ, zero, suc, ◌<◌, true, ◌≡◌, refl, ap, ◌∙◌, arith, Option, some, Bytes, length, inl, inr,
  Bool-cases, Result, ok, err, if◌then◌else◌,
}
use kkm_https_adapter.Http.Parser.Input.{Stream, weight, weight-get_line, read_all_lem, get_line}
use kkm_https_adapter.Http.Parser.{
  Parser, Reader, parse_method, parse_header, parse_body, dummy_reader, Outcome, done, threw, stuck,
  read_by, run, parse, after_header, read_header, caught, settle,
}

-- A call of the reader uses the stream up, or throws.
abbrev Shrinks : ℕ → Outcome → Type 0
Shrinks n (done p s) = weight s < n
Shrinks n (threw p) = Unit
Shrinks n stuck = ⊥

after_header-Shrinks :
    (n : ℕ) (r : Result Parser Parser) (s : Stream) → weight s < n → Shrinks n (after_header r s)
after_header-Shrinks n (ok p) s h = h
after_header-Shrinks n (err p) s h = tt

read_by-Shrinks :
    (r : Reader) (p : Parser) (s : Stream) → s.good ≡ true → Shrinks (weight s) (read_by r p s)
unfolding read_by
read_by-Shrinks parse_method p s g = weight-get_line s g
read_by-Shrinks parse_header p s g =
    after_header-Shrinks (weight s) (read_header (get_line s).0 p) (get_line s).1
      (weight-get_line s g)
read_by-Shrinks parse_body p s g =
    rw (read_all_lem (suc (length s.waiting)) 2048 p.request.body s (omega arith) (omega arith))
      (rw g (omega arith))
read_by-Shrinks dummy_reader p s g = rw g (omega arith)

settle-total :
    (n : ℕ) (loop : Parser → Stream → Option Parser) (o : Outcome)
    → ((p : Parser) (s : Stream) → weight s < n → (q : Parser) × (loop p s ≡ some q))
    → Shrinks n o
    → (q : Parser) × (settle loop o ≡ some q)
unfolding settle
settle-total n loop (done p s) h k = h p s k
settle-total n loop (threw p) h k = (caught p, refl)
settle-total n loop stuck h k = elim k [ ]

run-total :
    (fuel : ℕ) (p : Parser) (s : Stream) → weight s < fuel → (q : Parser) × (run fuel p s ≡ some q)
unfolding run
run-total zero p s h = elim h [ ]
run-total (suc fuel) p s h = elim (Bool-cases s.good) [
  | inl g ↦
      let (q, e) =
        settle-total (weight s) (run fuel) (read_by p.reader p s)
          (λ p' s' lt. run-total fuel p' s' (omega arith)) (read_by-Shrinks p.reader p s g) in
      (q, ap (λ b. if b then settle (run fuel) (read_by p.reader p s) else some p) g ∙ e)
  | inr g ↦ (p, ap (λ b. if b then settle (run fuel) (read_by p.reader p s) else some p) g)
]

-- Parsing ends on every input in every state of the parser.
pub parse-total : (p : Parser) (buffer : Bytes) → (q : Parser) × (parse p buffer ≡ some q)
unfolding parse
parse-total p buffer =
    run-total (suc (suc (length buffer))) p (record { waiting = buffer; good = true }) (omega arith)
