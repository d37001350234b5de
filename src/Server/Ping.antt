-- ===== src/Server/Ping.antt =====
-- src/kkmha/server_ping_handler.h and server_ping_handler.cpp.
use kkm_https_adapter.Base.{Bytes, utf8, some, ◌++◌, [], ◌∷◌}
use kkm_https_adapter.Http.{Request, get, method_not_allowed, constant, pointer, Data, set_response}
use kkm_https_adapter.Server.Settings.{method_not_allowed_text}
use kkm_https_adapter.Server.Handler.{fail}

abbrev line_end : Bytes
line_end = 13 ∷ 10 ∷ []

-- `s_pongResponse`.
unfoldable pub pong_response : Bytes
pong_response =
    utf8 "HTTP/1.1 200 OK"
    ++ line_end
    ++ (utf8 "Connection: close" ++ line_end)
    ++ (utf8 "Pragma: no-cache" ++ line_end)
    ++ (utf8 "Cache-Control: no-cache, private" ++ line_end)
    ++ (utf8 "Content-Type: application/json" ++ line_end)
    ++ (utf8 "Content-Length: 35" ++ line_end ++ line_end)
    ++ utf8 "{\"!message\":\"Pong\",\"!success\":true}"

abbrev set_data : Data → Request → Request
set_data content request = set_response request.response.status content request

-- `Ping::Handler::operator ()`.
unfoldable pub ping : Request → Request
unfolding pong_response method_not_allowed_text
ping request = elim (request.method) [
  | get ↦ set_data (pointer (some (constant pong_response))) request
  | _ ↦ fail request method_not_allowed method_not_allowed_text
]
