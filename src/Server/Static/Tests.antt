-- ===== src/Server/Static/Tests.antt =====
-- A file that is served twice.
use kkm_https_adapter.Base.{
  [], ◌∷◌, utf8, wide, true, false, ok, some, equal, ◌≡◌, refl, arith, Bytes,
}
use kkm_https_adapter.Text.{lower, to_lower}
use kkm_https_adapter.Http.{Request, IpAddress, new_request, get, Status, pointer, set_response}
use kkm_https_adapter.Http.Maps.{find}
use kkm_https_adapter.Server.Cache.{Cache, load, maintain}
use kkm_https_adapter.Server.Cache.Laws.{IsValid}
use kkm_https_adapter.Server.Static.{Files, Settings, mime_type, response_of, serve}
use kkm_https_adapter.Server.Static.Again.{serve-again}

-- One file of three bytes, changed at the time 5; or of four bytes.
abbrev disk : Bytes → Files
disk content = record {
  widen = λ t. t;
  narrow = λ t. t;
  within = λ t. t;
  is_directory = λ t. ok false;
  is_regular_file = λ t. ok true;
  status = λ t. ok true;
  last_write_time = λ t. ok 5;
  file_size = λ t. ok 3;
  extension = λ t. utf8 ".css";
  content = λ t n. content;
}

abbrev settings : Settings
settings = record {
  index_file = utf8 "index.html";
  mime_map = (utf8 ".css", utf8 "text/css") ∷ [];
  enable_unknown_type = false;
}

abbrev local : IpAddress
local = record {
  is_v4 = true;
  v4_loopback = true;
  is_v4_mapped = false;
  is_v4_compatible = false;
  embedded_loopback = false;
  v6_loopback = false;
  shown = utf8 "127.0.0.1";
}

abbrev request : Request
request = record (new_request local 1) { path = utf8 "/static/a.css"; method = get }

abbrev empty : Cache
empty = record { entries = []; counter = 0 }

empty-IsValid : IsValid empty
empty-IsValid = record { distinct = tt; counted = omega arith }

serve-again_example :
    serve
      (disk (utf8 "xyz"))
      settings
      20
      (wide "a.css")
      request
      (serve (disk (utf8 "abc")) settings 10 (wide "a.css") request empty).1
    ≡ (
      set_response Status.ok
          (pointer
            (some (response_of (disk (utf8 "abc")) settings (wide "a.css") 3 (utf8 "text/css"))))
          request,
      maintain 20 (serve (disk (utf8 "abc")) settings 10 (wide "a.css") request empty).1,
    )
unfolding new_request load maintain find mime_type lower to_lower equal
serve-again_example =
    serve-again (disk (utf8 "abc")) settings (disk (utf8 "xyz")) 10 20 (wide "a.css") request
      request empty 3 5 (utf8 "text/css") empty-IsValid refl refl refl refl refl (omega arith) refl
      refl refl
