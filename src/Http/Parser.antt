-- ===== src/Http/Parser.antt =====
-- src/kkmha/http_parser.cpp and http_parser.h. The stream buffer is the list of bytes that wait to be
-- read, and the input stream over it has a flag, `good()`. `Text::cast` may throw, so a reader gives
-- the parser and the stream as it leaves them, or the parser as it was at the throw. Log lines and
-- the reserved capacity of the body are left out.
pub mod Input
pub mod Total
pub mod Sound
pub mod RequestLine
pub mod HeaderLine
pub mod BodyBytes
mod Tests
use kkm_https_adapter.Base.{
  ℕ, zero, suc, ◌+◌, ◌-◌, Bool, true, false, ◌&&◌, ◌||◌, not, List, [], ◌∷◌, ◌++◌, Option, some,
  none, Bytes, utf8, is_nil, length, equal, if◌then◌else◌, ltb, leb, ◌==◌, Result, ok, err,
  DataError,
}
use kkm_https_adapter.Text.{
  before, from, rest_of, lower, trim, split_to, split_variable, assignment_signs,
}
use kkm_https_adapter.Text.Number.{cast_size}
use kkm_https_adapter.Http.{
  Request, Method, get, post, Status, bad_request, text, set_status, is_ok, empty_response,
  status_strings, set_response,
}
use kkm_https_adapter.Http.Maps.{assign}
use Input.{Stream, get_line, read_all, ignore, open_stream}

-- `m_reader`.
pub data Reader : Type 0 where
  parse_method parse_header parse_body dummy_reader : Reader

pub record Parser : Type 0 where
  pub request : Request
  pub reader : Reader
  pub expected_body_size : ℕ
  pub step : ℕ

unfoldable pub new_parser : Request → Parser
new_parser request = record {
  request = request;
  reader = parse_method;
  expected_body_size = 0;
  step = 0;
}

abbrev pub body_size_limit : ℕ
body_size_limit = 131072

unfoldable pub body_size_limit_exceeded : Bytes
body_size_limit_exceeded = utf8 "Превышен разрешенный размер тела запроса"

-- `m_status = status; m_reader = &Parser::dummyReader;`
abbrev pub refuse : Status → Parser → Parser
refuse status p = record p { request = set_status status p.request; reader = dummy_reader }

-- The verb, the path and the hint of a request line.
abbrev pub path_end : Bytes
path_end = utf8 " ?#" ++ (13 ∷ 10 ∷ [])

abbrev pub hint_delims : Bytes
hint_delims = utf8 " /\\"

-- The last test of `parseMethod`, on the hint.
pub choose_method : List Bytes → Parser → Parser
choose_method [] p = refuse bad_request p
choose_method (first ∷ rest) p =
    if equal first (utf8 "post")
    then record p {
      request = record (p.request) { method = post };
      reader = parse_header;
      step = p.step + 1;
    }
    else if equal first (utf8 "get")
    then record p {
      request = record (p.request) { method = get };
      reader = parse_header;
      step = p.step + 1;
    }
    else refuse Status.not_implemented p

-- `parseMethod` on the line that it has read: `after` is the text behind the first space.
unfoldable pub read_method : Bytes → Parser → Parser
unfolding choose_method
read_method line p =
    if is_nil (from (utf8 " ") line)
    then refuse bad_request p
    else let verb = before (utf8 " ") line in
      let after = rest_of (from (utf8 " ") line) in
      let with_verb = record p { request = record (p.request) { verb = verb } } in
      if is_nil (from path_end after) || is_nil (before path_end after)
      then refuse bad_request with_verb
      else let path = before path_end after in
        let hint = (split_to p.request.hint (lower (verb ++ (b' ' ∷ path))) hint_delims false).0 in
        choose_method hint
          (record p { request = record (p.request) { verb = verb; path = path; hint = hint } })

abbrev is_post : Method → Bool
is_post post = true
is_post _ = false

-- `parseHeader` behind the assignment to `m_header`, for the field `content-length`.
abbrev pub with_size : Parser → Result DataError ℕ → Result Parser Parser
with_size p (err e) = err p
with_size p (ok size) =
    if ltb body_size_limit size
    then ok (record p {
      request = set_response bad_request (text body_size_limit_exceeded) p.request;
      reader = dummy_reader;
      expected_body_size = 0;
    })
    else ok (record p { expected_body_size = size })

-- `parseHeader` on an empty line.
unfoldable pub end_of_header : Parser → Parser
end_of_header p =
    if is_post p.request.method && not (p.expected_body_size == 0)
    then record p { reader = parse_body; step = p.step + 1 }
    else record p { reader = dummy_reader }

-- `parseHeader` on a field and its value.
unfoldable pub with_field : Bytes → Bytes → Parser → Result Parser Parser
with_field name value p =
    let q = record p {
      request = record (p.request) { header = assign name value p.request.header };
    } in
    if equal name (utf8 "content-length") then with_size q (cast_size value) else ok q

-- `parseHeader` on the line that it has read.
unfoldable pub read_header : Bytes → Parser → Result Parser Parser
unfolding end_of_header with_field
read_header line p =
    let (name, value) = split_variable (trim line) true false assignment_signs in
    if is_nil (trim line) then ok (end_of_header p) else with_field name value p

-- How a call of the reader ends; `stuck` is the body's loop out of fuel.
pub data Outcome : Type 0 where
  done : Parser → Stream → Outcome
  threw : Parser → Outcome
  stuck : Outcome

abbrev parser_buffer_size : ℕ
parser_buffer_size = 2048

abbrev pub after_header : Result Parser Parser → Stream → Outcome
after_header (ok p) s = done p s
after_header (err p) s = threw p

abbrev pub after_body : Parser → Option (Bytes × Stream) → Outcome
after_body p none = stuck
after_body p (some (body, s)) = done (record p { request = record (p.request) { body = body } }) s

-- `(this->*m_reader)(input)`.
unfoldable pub read_by : Reader → Parser → Stream → Outcome
read_by parse_method p s = let (line, s') = get_line s in done (read_method line p) s'
read_by parse_header p s = let (line, s') = get_line s in after_header (read_header line p) s'
read_by parse_body p s =
    after_body p (read_all (suc (length s.waiting)) parser_buffer_size p.request.body s)
read_by dummy_reader p s = done p (ignore s)

-- The handlers of `operator ()`.
unfoldable pub caught : Parser → Parser
caught p = record p {
  request = if is_ok p.request.response.status then set_status bad_request p.request else p.request;
  reader = dummy_reader;
}

-- What follows a call of the reader.
unfoldable pub settle : (Parser → Stream → Option Parser) → Outcome → Option Parser
unfolding caught
settle loop (done p s) = loop p s
settle loop (threw p) = some (caught p)
settle loop stuck = none

-- The loop of `operator ()`, on fuel.
unfoldable pub run : ℕ → Parser → Stream → Option Parser
unfolding read_by settle
run zero p s = none
run (suc fuel) p s =
    let more = settle (run fuel) (read_by p.reader p s) in if s.good then more else some p

-- `parser(buffer)`. What is left in the buffer behind a throw is never read again, since the status
-- is then not Ok and nothing more is expected.
unfoldable pub parse : Parser → Bytes → Option Parser
unfolding run
parse p buffer = run (suc (suc (length buffer))) p (open_stream buffer)

unfoldable pub expecting : Parser → ℕ
expecting p =
    if is_ok p.request.response.status
      && leb 2 p.step
      && ltb (length p.request.body) p.expected_body_size
    then p.expected_body_size - length p.request.body
    else 0

unfoldable pub complete : Request → Request
unfolding empty_response status_strings
complete r =
    if not (is_ok r.response.status) && empty_response r
    then set_response r.response.status (text (status_strings r.response.status)) r
    else r
