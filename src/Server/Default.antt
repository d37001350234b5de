-- ===== src/Server/Default.antt =====
-- src/kkmha/server_default_handler.cpp and server_default_strings.h. The picture of
-- server_favicon.h is a parameter.
use kkm_https_adapter.Base.{
  Bool, List, Bytes, utf8, some, ◌++◌, [], ◌∷◌, ◌&&◌, if◌then◌else◌, length, equal, ltb,
}
use kkm_https_adapter.Http.{
  Request, Method, get, post, method_not_allowed, not_found, moved_temporarily, solid, binary,
  pointer, set_response,
}
use kkm_https_adapter.Server.Settings.{method_not_allowed_text, not_found_text}
use kkm_https_adapter.Server.Handler.{fail}

abbrev line_end : Bytes
line_end = 13 ∷ 10 ∷ []

-- `c_redirectToStaticResponse`: its head and its body.
abbrev pub redirect_head : Bytes
redirect_head =
    utf8 "HTTP/1.1 302 Moved Temporarily"
    ++ line_end
    ++ (utf8 "Connection: close" ++ line_end)
    ++ (utf8 "Location: /static/index.html" ++ line_end)
    ++ (utf8 "Pragma: no-cache" ++ line_end)
    ++ (utf8 "Cache-Control: no-cache, private" ++ line_end)
    ++ (utf8 "Content-Type: text/html" ++ line_end)
    ++ (utf8 "Content-Length: 128" ++ line_end ++ line_end)

abbrev pub redirect_body : Bytes
redirect_body =
    utf8 "<script lang=\"javascript\">document.location.href=\"/static/index.html\";</script>"
    ++ utf8 "Click this <a href=\"/static/index.html\">link</a>."

unfoldable pub redirect_to_static_response : Bytes
redirect_to_static_response = redirect_head ++ redirect_body

-- `request.m_hint[1] == "…"` of a hint with two parts.
abbrev second_is : Bytes → List Bytes → Bool
second_is name (first ∷ (second ∷ [])) = equal second name
second_is name _ = Bool.false

-- `Default::Handler::operator ()`.
unfoldable pub default : Bool → Bytes → Bytes → Request → Request
unfolding redirect_to_static_response method_not_allowed_text not_found_text
default static_enable icon icon_mime request = elim (request.method) [
  | get ↦
      if static_enable && ltb (length request.hint) 2
      then set_response moved_temporarily (pointer (some (solid redirect_to_static_response)))
          request
      else if second_is (utf8 "favicon.ico") request.hint
      then set_response request.response.status
          (pointer (some (binary icon_mime (some icon) (length icon)))) request
      else fail request not_found not_found_text
  | post ↦ fail request not_found not_found_text
  | Method.not_implemented ↦ fail request method_not_allowed method_not_allowed_text
]
