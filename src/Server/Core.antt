-- ===== src/Server/Core.antt =====
-- src/kkmha/server_core.cpp: what `accept` does with a parsed request. The secret is checked, then
-- the handler of the request's area is called. The handlers share a state. The connection itself
-- (handshake, reads, timeout, shutdown) is the asio library's.
pub mod Laws
mod Tests
use kkm_https_adapter.Base.{
  Bool, true, List, [], ◌∷◌, ◌&&◌, ◌||◌, not, Option, some, none, Bytes, utf8, equal, is_nil,
  if◌then◌else◌,
}
use kkm_https_adapter.Http.{
  Request, is_ok, below_bad_request, is_loopback, forbidden, text, set_response,
}
use kkm_https_adapter.Http.Maps.{find}
use kkm_https_adapter.Server.Settings.{forbidden_text}

-- `s_loopbackWithoutSecret` and `s_secret` of server_variables.h.
pub record Settings : Type 0 where
  pub loopback_without_secret : Bool
  pub secret : Bytes

-- `it == end() || it->second.empty() || it->second != s_secret`.
unfoldable pub wrong_secret : Bytes → Option Bytes → Bool
wrong_secret secret none = true
wrong_secret secret (some given) = is_nil given || not (equal given secret)

-- The check of `x-secret`.
unfoldable pub authorize : Settings → Request → Request
unfolding below_bad_request is_loopback find wrong_secret forbidden_text
authorize settings request =
    if below_bad_request request.response.status
      && (not settings.loopback_without_secret || not (is_loopback request.remote))
    then if wrong_secret settings.secret (find (utf8 "x-secret") request.header)
      then set_response forbidden (text forbidden_text) request
      else request
    else request

-- The handlers that `lookupHandler` chooses from.
pub data Area : Type 0 where
  kkm_area static_area config_area ping_area default_area : Area

abbrev area_named : Bytes → Area
area_named area =
    if equal area (utf8 "kkm")
    then kkm_area
    else if equal area (utf8 "static")
    then static_area
    else if equal area (utf8 "config")
    then config_area
    else if equal area (utf8 "ping")
    then ping_area
    else default_area

unfoldable pub lookup_handler : List Bytes → Area
lookup_handler (first ∷ (area ∷ rest)) = area_named area
lookup_handler _ = default_area

-- The handlers over the state that they share.
pub record Handlers (S : Type 0) : Type 0 where
  pub call : Area → Request → S → Request × S

-- From the parsed request to the one whose response is sent.
unfoldable pub answer : {S : Type 0} → Settings → Handlers S → Request → S → Request × S
unfolding authorize lookup_handler
answer settings handlers request s =
    let checked = authorize settings request in
    if is_ok checked.response.status
    then handlers.call (lookup_handler checked.hint) checked s
    else (checked, s)
