-- ===== src/Server/KkmOp.antt =====
-- src/kkmha/server_kkmop_handler.cpp, server_kkmop_defauls.h and http_constant_response.h: the
-- handler of the requests to a cash register. What the operations of its table do to the world is
-- an interface, `Performer`; the request cache is threaded through. Other requests do not run
-- between the steps of one call here. Log lines are left out.
pub mod Table
pub mod Guards
pub mod World
pub mod Registry
pub mod Operations
pub mod Sessions
pub mod Learn
pub mod Performing
pub mod Outcomes
pub mod Idempotency
pub mod ContentType
mod Tests
use kkm_https_adapter.Base.{
  ℕ, ◌+◌, Bool, true, false, ◌&&◌, ◌||◌, not, List, [], ◌∷◌, ◌++◌, Option, some, none, Bytes, utf8,
  equal, is_nil, if◌then◌else◌, Result, ok, err,
}
use kkm_https_adapter.Text.{split_to, trim, split_variable, assignment_signs, concat_to, join_to}
use kkm_https_adapter.Http.{
  Request, Status, get, post, bad_request, not_found, method_not_allowed, internal_server_error,
  pointer, Method, is_ok, ProtoResponse, constant, json, set_response,
}
use kkm_https_adapter.Http.Maps.{find}
use kkm_https_adapter.Http.JsonValue.{Json, null, object, end, is_object}
use kkm_https_adapter.Server.Settings.{
  invalid_key_text, invalid_content_type_text, method_not_allowed_text, not_found_text,
  bad_request_text,
}
use kkm_https_adapter.Server.Handler.{fail}
use kkm_https_adapter.Server.Cache.{Cache, Entry, maintain, load, store, expires_after}
use Table.{Operation, handlers}
unfoldable pub use Guards.{idempotency_key, good_chunks, good_content_type, refusal, cache_key}

abbrev line_end : Bytes
line_end = 13 ∷ 10 ∷ []

-- `ConstantResponse::s_okResponse`.
unfoldable pub ok_response : Bytes
ok_response =
    utf8 "HTTP/1.1 200 OK"
    ++ line_end
    ++ (utf8 "Connection: close" ++ line_end)
    ++ (utf8 "Pragma: no-cache" ++ line_end)
    ++ (utf8 "Cache-Control: no-cache, private" ++ line_end)
    ++ (utf8 "Content-Type: application/json" ++ line_end)
    ++ (utf8 "Content-Length: 33" ++ line_end ++ line_end)
    ++ utf8 "{\"!message\":\"OK\",\"!success\":true}"

abbrev pub report_cache_life_time : ℕ
report_cache_life_time = 5

abbrev pub receipt_cache_life_time : ℕ
receipt_cache_life_time = 345600

pub record Payload : Type 0 where
  pub serial_number : Bytes
  pub details : Json
  pub result : Option Json
  pub expires_after : ℕ
  pub status : Status
  pub request_id : ℕ

-- How a call that may throw ends: with its value, or with the text of the exception.
pub data Ended (A W : Type 0) : Type 0 where
  returned : A → W → Ended A W
  thrown : Bytes → W → Ended A W

-- What the handler calls: the clock, the parser of the JSON library, and the operations.
pub record Performer (W : Type 0) : Type 0 where
  pub now : W → ℕ
  pub parse : Bytes → Result Bytes Json
  pub perform : Operation → Payload → W → Ended Payload W

abbrev pub load_keyed : Bytes → Cache → Option Entry
load_keyed key cache = if is_nil key then none else load key cache

abbrev store_keyed : ℕ → Bytes → ℕ → Status → ProtoResponse → Cache → Cache
store_keyed now key expired_at status response cache =
    if is_nil key then cache else store now key expired_at status (some response) cache

abbrev pub from_cache : Entry → Request → Request
from_cache entry r = set_response entry.status (pointer entry.response) r

-- `handlerKey` and `serialNumber` of a hint.
unfoldable pub handler_key : List Bytes → Option (Bytes × Bytes)
unfolding concat_to join_to
handler_key (a ∷ (b ∷ (c ∷ (d ∷ [])))) =
    some (concat_to [] (a ∷ utf8 "/" ∷ b ∷ utf8 "/" ∷ d ∷ []), c)
handler_key (a ∷ (b ∷ (c ∷ []))) = some (join_to [] (a ∷ b ∷ c ∷ []) (utf8 "/"), [])
handler_key _ = none

abbrev is_get : Method → Bool
is_get get = true
is_get _ = false

abbrev is_post : Method → Bool
is_post post = true
is_post _ = false

-- How the choice of an operation ends: with it and its payload, with a refusal, or with a throw.
pub data Choice : Type 0 where
  chosen : Operation → Payload → Choice
  declined : Status → Bytes → Choice
  threw : Bytes → Choice

unfoldable pub new_payload : Bytes → Json → Request → Payload
new_payload serial_number details r = record {
  serial_number = serial_number;
  details = details;
  result = none;
  expires_after = if is_get r.method then report_cache_life_time else receipt_cache_life_time;
  status = Status.ok;
  request_id = r.id;
}

abbrev with_details : Operation → Bytes → Request → Result Bytes Json → Choice
with_details operation serial r (err message) = threw message
with_details operation serial r (ok details) =
    if is_object details
    then chosen operation (new_payload serial details r)
    else declined bad_request bad_request_text

abbrev read_details : (Bytes → Result Bytes Json) → Request → Result Bytes Json
read_details parse r =
    if is_post r.method && not (is_nil r.body) then parse r.body else ok (object end)

abbrev with_operation : (Bytes → Result Bytes Json) → Bytes → Request → Option Operation → Choice
with_operation parse serial r none = declined not_found not_found_text
with_operation parse serial r (some operation) =
    with_details operation serial r (read_details parse r)

abbrev with_key : (Bytes → Result Bytes Json) → Request → Option (Bytes × Bytes) → Choice
with_key parse r none = declined not_found not_found_text
with_key parse r (some (key, serial)) = with_operation parse serial r (find key handlers)

-- From the hint to the operation and its payload.
unfoldable pub choose : (Bytes → Result Bytes Json) → Request → Choice
unfolding handler_key find new_payload not_found_text bad_request_text
choose parse r = with_key parse r (handler_key r.hint)

-- The response to a payload: `nullopt` with an Ok status is the constant one.
abbrev json_or_null : Option Json → Json
json_or_null none = null
json_or_null (some j) = j

abbrev is_none : Option Json → Bool
is_none none = true
is_none (some j) = false

unfoldable pub response_of : Payload → ProtoResponse
unfolding ok_response
response_of p =
    if is_none p.result && is_ok p.status
    then constant ok_response
    else json (json_or_null p.result)

-- The assignments to the response behind the call, which keep a status that is not Ok.
abbrev pub respond : Status → ProtoResponse → Request → Request
respond status response r =
    if is_ok r.response.status then set_response status (pointer (some response)) r else r

-- The part behind the handler's call, and the `catch` clauses.
unfoldable pub conclude :
    {W : Type 0} → Performer W → Bytes → Request → Cache → Ended Payload W → Request × Cache × W
unfolding response_of store expires_after
conclude env key r cache (thrown message w) = (fail r internal_server_error message, cache, w)
conclude env key r cache (returned p w) = (
  respond p.status (response_of p) r,
  store_keyed (env.now w) key (expires_after (env.now w) p.expires_after) p.status (response_of p)
      cache,
  w,
)

abbrev pub after_choice :
    {W : Type 0} → Performer W → Bytes → Request → Cache → W → Choice → Request × Cache × W
after_choice env key r cache w (declined status message) = (fail r status message, cache, w)
after_choice env key r cache w (threw message) = (fail r internal_server_error message, cache, w)
after_choice env key r cache w (chosen operation payload) =
    conclude env key r cache (env.perform operation payload w)

abbrev pub after_load :
    {W : Type 0} → Performer W → Request → Cache → W → Option Entry → Request × Cache × W
after_load env r cache w (some entry) = (from_cache entry r, cache, w)
after_load env r cache w none = after_choice env (cache_key r) r cache w (choose (env.parse) r)

abbrev pub after_refusal :
    {W : Type 0} → Performer W → Request → Cache → W → Option (Status × Bytes) → Request × Cache × W
after_refusal env r cache w (some (status, message)) = (fail r status message, cache, w)
after_refusal env r cache w none =
    let kept = maintain (env.now w) cache in after_load env r kept w (load_keyed (cache_key r) kept)

-- `KkmOp::Handler::operator ()`.
unfoldable pub handle : {W : Type 0} → Performer W → Request → Cache → W → Request × Cache × W
unfolding refusal maintain load cache_key choose conclude
handle env r cache w = after_refusal env r cache w (refusal r)
