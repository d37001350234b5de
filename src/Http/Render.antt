-- ===== src/Http/Render.antt =====
-- `Response::render` of src/kkmha/http_response.h and `render` of http_json_response.h,
-- http_solid_response.h, http_constant_response.h and http_binary_response.h, with the templates of
-- http_strings.h. The JSON library's `dump` is a parameter. A JSON response changes its own data when it
-- is rendered, and a cached one is rendered again, so the response comes back with the text.
pub mod Laws
mod Tests
use kkm_https_adapter.Base.{
  ℕ, Bool, true, false, not, ◌&&◌, ◌==◌, [], ◌∷◌, ◌++◌, Option, some, none, Bytes, utf8, length,
  take, if◌then◌else◌,
}
use kkm_https_adapter.Text.Number.{decimal}
use kkm_https_adapter.Http.{
  Status, code, status_strings, below_bad_request, ProtoResponse, json, constant, solid, binary,
  Data, nothing, text, pointer, Response,
}
use kkm_https_adapter.Http.JsonValue.{
  Json, Fields, end, boolean, string, object, at, put, is_boolean, is_string,
}

abbrev line_end : Bytes
line_end = 13 ∷ 10 ∷ []

abbrev pub success_key : Bytes
success_key = utf8 "!success"

abbrev pub message_key : Bytes
message_key = utf8 "!message"

abbrev json_mime_type : Bytes
json_mime_type = utf8 "application/json"

abbrev status_line : Status → Bytes
status_line status =
    utf8 "HTTP/1.1 " ++ (decimal (code status) ++ (utf8 " " ++ (status_strings status ++ line_end)))

abbrev content_lines : Bytes → ℕ → Bytes
content_lines mime size =
    utf8 "Content-Type: "
    ++ (mime ++ line_end)
    ++ (utf8 "Content-Length: " ++ (decimal size ++ line_end) ++ line_end)

-- `c_responseHeaderTemplate`.
unfoldable pub response_header : Status → Bytes → ℕ → Bytes
unfolding decimal code status_strings
response_header status mime size =
    status_line status
    ++ (utf8 "Connection: close" ++ line_end)
    ++ (utf8 "Pragma: no-cache" ++ line_end)
    ++ (utf8 "Cache-Control: no-cache, private" ++ line_end)
    ++ content_lines mime size

-- `c_staticResponseHeaderTemplate`.
unfoldable pub static_response_header : Status → Bytes → ℕ → Bytes
unfolding decimal code status_strings
static_response_header status mime size =
    status_line status ++ (utf8 "Connection: close" ++ line_end) ++ content_lines mime size

-- The two assignments in front of `dump`.
unfoldable pub with_success : Status → Fields → Fields
unfolding at put below_bad_request
with_success status fs =
    if is_boolean (at success_key fs)
    then fs
    else put success_key (boolean (below_bad_request status)) fs

unfoldable pub with_message : Status → Fields → Fields
unfolding at put status_strings
with_message status fs =
    if is_string (at message_key fs)
    then fs
    else put message_key (string (status_strings status)) fs

-- The fields of the object that the source asserts; a null becomes an object by the assignments.
abbrev pub fields_of : Json → Fields
fields_of (object fs) = fs
fields_of _ = end

unfoldable pub render_json : (Json → Bytes) → Status → Json → Bytes × Json
unfolding with_success with_message response_header
render_json dump status j =
    let completed = object (with_message status (with_success status (fields_of j))) in
    let content = dump completed in
    (response_header status json_mime_type (length content) ++ content, completed)

abbrev render_binary : Status → Bytes → Option Bytes → ℕ → Bytes
render_binary status mime none size = static_response_header status mime 0
render_binary status mime (some data_) size =
    if size == 0
    then static_response_header status mime 0
    else static_response_header status mime size ++ take size data_

abbrev keep_json : Bytes × Json → Bytes × ProtoResponse
keep_json (t, j) = (t, json j)

-- `render` of the four responses.
unfoldable pub render_proto : (Json → Bytes) → Status → ProtoResponse → Bytes × ProtoResponse
unfolding render_json static_response_header
render_proto dump status (json j) = keep_json (render_json dump status j)
render_proto dump status (constant t) = (t, constant t)
render_proto dump status (solid t) = (t, solid t)
render_proto dump status (binary mime content size) =
    (render_binary status mime content size, binary mime content size)

abbrev render_text : (Json → Bytes) → Status → Bytes → Bytes
render_text dump status message =
    let content = dump (
      object (
        Fields.field success_key (boolean (below_bad_request status))
          (Fields.field message_key (string message) end))) in
    response_header status json_mime_type (length content) ++ content

-- `Response::render`. A null pointer, which the source would follow, is rendered as nothing.
unfoldable pub render : (Json → Bytes) → Response → Bytes
unfolding render_proto below_bad_request response_header status_strings
render dump response = elim (response.content) [
  | nothing ↦ render_text dump response.status (status_strings response.status)
  | text message ↦ render_text dump response.status message
  | pointer none ↦ []
  | pointer (some p) ↦ (render_proto dump response.status p).0
]
