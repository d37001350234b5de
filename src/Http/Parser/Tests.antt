-- ===== src/Http/Parser/Tests.antt =====
-- Runs of the parser, and the theorems on it at concrete inputs.
use kkm_https_adapter.Base.{
  Bool, true, false, List, [], ◌∷◌, ◌++◌, ◌≡◌, refl, arith, Bytes, utf8, among, equal, All, Option,
  some, none,
}
use kkm_https_adapter.Text.{
  trim, lower, to_lower, from_first, to_last, no_trim_predicate, assignment_signs, before, from,
  skip, split_to, split_loop, split_variable,
}
use kkm_https_adapter.Http.{IpAddress, new_request, post, is_ok}
use kkm_https_adapter.Http.Maps.{assign}
use kkm_https_adapter.Http.Parser.{
  Parser, new_parser, parse_body, parse, run, read_by, settle, read_method, read_header,
  end_of_header, choose_method, with_field,
}
use kkm_https_adapter.Http.Parser.Input.{read_all, read, get_line}
use kkm_https_adapter.Http.Parser.Sound.{IsSound, parse-IsSound}
use kkm_https_adapter.Http.Parser.Total.{parse-total}

abbrev local : IpAddress
local = record {
  is_v4 = true;
  v4_loopback = true;
  is_v4_mapped = false;
  is_v4_compatible = false;
  embedded_loopback = false;
  v6_loopback = false;
  shown = utf8 "127.0.0.1";
}

abbrev fresh : Parser
fresh = new_parser (new_request local 7)

abbrev line_end : Bytes
line_end = 13 ∷ 10 ∷ []

abbrev ping_request : Bytes
ping_request = utf8 "GET /ping HTTP/1.1" ++ line_end ++ (utf8 "Host: a" ++ line_end) ++ line_end

abbrev accepted_status : Option Parser → Bool
accepted_status none = false
accepted_status (some p) = is_ok p.request.response.status

abbrev hint_of_outcome : Option Parser → List Bytes
hint_of_outcome none = []
hint_of_outcome (some p) = p.request.hint

ping_test : hint_of_outcome (parse fresh ping_request) ≡ utf8 "get" ∷ utf8 "ping" ∷ []
unfolding parse run read_by settle get_line read_method read_header choose_method end_of_header
    with_field new_parser new_request split_to split_loop split_variable before from skip among
    lower to_lower trim from_first to_last no_trim_predicate equal assign
ping_test = refl

-- A parser in the body's phase.
abbrev reading : Parser
reading = record {
  request = record (new_request local 7) { method = post; body = utf8 "{" };
  reader = parse_body;
  expected_body_size = 2;
  step = 2;
}

parse-total_example : (q : Parser) × (parse fresh ping_request ≡ some q)
parse-total_example = parse-total fresh ping_request

parse-IsSound_example :
    IsSound (record reading { request = record (reading.request) { body = utf8 "{}" } })
unfolding parse run read_by settle read_all read new_request
parse-IsSound_example =
    parse-IsSound reading (utf8 "}")
      (record reading { request = record (reading.request) { body = utf8 "{}" } })
      (omega arith, (refl, refl, refl, omega arith)) refl

abbrev length_name : Bytes
length_name = utf8 "Content-Length"

length_name_free : All (λ c. among c assignment_signs ≡ false) length_name
unfolding among
length_name_free = (
  refl,
  (
    refl,
    (
      refl,
      (refl, (refl, (refl, (refl, (refl, (refl, (refl, (refl, (refl, (refl, (refl, tt))))))))))),
    ),
  ),
)

abbrev with_length : Bytes → Parser
with_length n = record fresh {
  request = record (fresh.request) {
    header = assign (utf8 "content-length") n fresh.request.header;
  };
}
