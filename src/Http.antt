-- ===== src/Http.antt =====
-- src/kkmha/http_types.h, http_strings.h, http_request.h and the data of http_response.h. A header is
-- an `unordered_map`: here an association list that holds a key at most once. A remote address of
-- the asio library is what the code asks of it.
pub mod Maps
pub mod JsonValue
pub mod Render
pub mod Parser
use kkm_https_adapter.Base.{
  ℕ, ◌<◌, Bool, true, false, ◌&&◌, ◌||◌, not, List, [], ◌∷◌, Option, some, none, Bytes, utf8,
  is_nil, if◌then◌else◌, ltb,
}
use Maps.{Header}
use JsonValue.{Json}

pub data Method : Type 0 where
  not_implemented get post : Method

pub data Status : Type 0 where
  ok moved_temporarily bad_request forbidden not_found method_not_allowed : Status
  internal_server_error not_implemented : Status

-- `Meta::toUnderlying`.
unfoldable pub code : Status → ℕ
code Status.ok = 200
code moved_temporarily = 302
code bad_request = 400
code forbidden = 403
code not_found = 404
code method_not_allowed = 405
code internal_server_error = 500
code Status.not_implemented = 501

-- `c_statusStrings`, which lists every status.
unfoldable pub status_strings : Status → Bytes
status_strings Status.ok = utf8 "OK"
status_strings moved_temporarily = utf8 "Moved Temporarily"
status_strings bad_request = utf8 "Bad Request"
status_strings forbidden = utf8 "Forbidden"
status_strings not_found = utf8 "Not Found"
status_strings method_not_allowed = utf8 "Method Not Allowed"
status_strings internal_server_error = utf8 "Internal Server Error"
status_strings Status.not_implemented = utf8 "Not Implemented"

abbrev pub is_ok : Status → Bool
is_ok Status.ok = true
is_ok _ = false

-- `status < Status::BadRequest`.
unfoldable pub below_bad_request : Status → Bool
unfolding code
below_bad_request status = ltb (code status) (code bad_request)

-- The implementations of `ProtoResponse` with their fields.
pub data ProtoResponse : Type 0 where
  json : Json → ProtoResponse
  constant : Bytes → ProtoResponse
  solid : Bytes → ProtoResponse
  binary : Bytes → Option Bytes → ℕ → ProtoResponse

-- The variant `Response::m_data`; a pointer may be null.
pub data Data : Type 0 where
  nothing : Data
  text : Bytes → Data
  pointer : Option ProtoResponse → Data

pub record Response : Type 0 where
  pub content : Data
  pub status : Status

pub record IpAddress : Type 0 where
  pub is_v4 : Bool
  pub v4_loopback : Bool
  pub is_v4_mapped : Bool
  pub is_v4_compatible : Bool
  pub embedded_loopback : Bool
  pub v6_loopback : Bool
  pub shown : Bytes

-- `Asio::isLoopback` of src/kkmha/asio.h.
unfoldable pub is_loopback : IpAddress → Bool
is_loopback address =
    if address.is_v4
    then address.v4_loopback
    else if address.is_v4_mapped || address.is_v4_compatible
    then address.embedded_loopback
    else address.v6_loopback

pub record Request : Type 0 where
  pub header : Header
  pub response : Response
  pub verb : Bytes
  pub path : Bytes
  pub body : Bytes
  pub remote : IpAddress
  pub hint : List Bytes
  pub method : Method
  pub id : ℕ

-- A request as it is constructed.
unfoldable pub new_request : IpAddress → ℕ → Request
new_request remote id = record {
  header = [];
  response = record { content = nothing; status = Status.ok };
  verb = [];
  path = [];
  body = [];
  remote = remote;
  hint = [];
  method = Method.not_implemented;
  id = id;
}

-- `m_response.m_status = status` and the assignments to `m_response.m_data`.
abbrev pub set_status : Status → Request → Request
set_status status r = record r {
  response = record { content = r.response.content; status = status };
}

abbrev pub set_response : Status → Data → Request → Request
set_response status content r = record r {
  response = record { content = content; status = status };
}

abbrev empty_data : Data → Bool
empty_data nothing = true
empty_data (text t) = is_nil t
empty_data (pointer none) = true
empty_data (pointer (some r)) = false

unfoldable pub empty_response : Request → Bool
empty_response r = empty_data r.response.content
