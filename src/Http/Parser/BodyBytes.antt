-- ===== src/Http/Parser/BodyBytes.antt =====
-- Reading the body of a POST, in one or more deliveries.
use kkm_https_adapter.Base.{suc, ◌≡◌, ap, ◌∙◌, arith, some, ◌++◌, Bytes, length}
use kkm_https_adapter.Http.Parser.Input.{read_all_lem, open_stream}
use kkm_https_adapter.Http.Parser.{Parser, parse_body, read_by, run, parse, after_body, settle}

abbrev with_body : Bytes → Parser → Parser
with_body t p = record p { request = record (p.request) { body = p.request.body ++ t } }

-- In the body's phase a delivery is appended whole, and nothing else of the parser changes.
pub parse-body :
    (p : Parser) (buffer : Bytes)
    → p.reader ≡ parse_body
    → parse p buffer ≡ some (with_body buffer p)
unfolding parse run settle read_by
parse-body p buffer e =
    let loop = run (suc (length buffer)) in
    ap (λ r. settle loop (read_by r p (open_stream buffer))) e
    ∙ ap (λ b. settle loop (after_body p b))
        (read_all_lem (suc (length buffer)) 2048 p.request.body (open_stream buffer) (omega arith)
          (omega arith))
