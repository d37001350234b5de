-- ===== src/Server/Static.antt =====
-- src/kkmha/server_static_handler.cpp, server_static_strings.h and server_static_defaults.h. The file
-- system is an argument, and does not change while a request is handled.
pub mod Again
mod Tests
use kkm_https_adapter.Base.{
  ℕ, Bool, true, false, not, ◌||◌, [], ◌∷◌, ◌++◌, Option, some, none, Bytes, utf8, is_nil, length,
  ltb, leb, if◌then◌else◌, Result, ok, err,
}
use kkm_https_adapter.Text.{lower, skip, from, to_last}
use kkm_https_adapter.Text.Path.{starts_with, is_good}
use kkm_https_adapter.Http.{
  Request, Method, get, Status, bad_request, not_found, method_not_allowed, moved_temporarily,
  internal_server_error, is_ok, ProtoResponse, solid, binary, pointer, set_response,
}
use kkm_https_adapter.Http.Maps.{Map, find}
use kkm_https_adapter.Kkm.Driver.{WideText}
use kkm_https_adapter.Server.Settings.{method_not_allowed_text, not_found_text, bad_path_text}
use kkm_https_adapter.Server.Handler.{fail}
use kkm_https_adapter.Server.Cache.{Cache, Entry, store, load, maintain, expires_after}

-- A call of the file system ends with an error, by its message, or with its value.
pub record Files : Type 0 where
  pub widen : Bytes → WideText
  pub narrow : WideText → Bytes
  pub within : WideText → WideText
  pub is_directory : WideText → Result Bytes Bool
  pub is_regular_file : WideText → Result Bytes Bool
  pub status : WideText → Result Bytes Bool
  pub last_write_time : WideText → Result Bytes ℕ
  pub file_size : WideText → Result Bytes ℕ
  pub extension : WideText → WideText
  pub content : WideText → ℕ → Bytes

-- `s_indexFile`, `s_mimeMap` and `s_enableUnknownType`.
pub record Settings : Type 0 where
  pub index_file : Bytes
  pub mime_map : Map Bytes
  pub enable_unknown_type : Bool

unfoldable pub file_too_large_text : Bytes
file_too_large_text = utf8 "Размер файла превышает разрешённый"

unfoldable pub unknown_mime_type_text : Bytes
unknown_mime_type_text = utf8 "Неизвестный тип файла"

unfoldable pub bad_filesystem_entity_type_text : Bytes
bad_filesystem_entity_type_text = utf8 "Неподходящий тип объекта файловой системы"

abbrev pub file_cache_life_time : ℕ
file_cache_life_time = 43200

abbrev pub file_size_limit : ℕ
file_size_limit = 2097152

abbrev def_mime_type : Bytes
def_mime_type = utf8 "application/octet-stream"

abbrev line_end : Bytes
line_end = 13 ∷ 10 ∷ []

-- `c_redirectResponseTemplate`.
unfoldable pub redirect_response : Bytes → Bytes
redirect_response location =
    utf8 "HTTP/1.1 302 Moved Temporarily"
    ++ line_end
    ++ (utf8 "Connection: close" ++ line_end)
    ++ (utf8 "Location: " ++ location ++ line_end)
    ++ (utf8 "Pragma: no-cache" ++ line_end)
    ++ (utf8 "Cache-Control: no-cache, private" ++ line_end)
    ++ (utf8 "Content-Length: 0" ++ line_end ++ line_end)

-- `find_last_of("/") == size() - 1`, of a path that is not empty.
abbrev ends_with_slash : Bytes → Bool
ends_with_slash [] = false
ends_with_slash (c ∷ []) = starts_with (utf8 "/") (c ∷ [])
ends_with_slash (c ∷ (d ∷ t)) = ends_with_slash (d ∷ t)

-- The file that a requested path names, or nothing.
unfoldable pub file_of : Files → Bytes → WideText
unfolding skip from
file_of files path = skip (utf8 "/") (from (utf8 "/") (skip (utf8 "/") (files.widen path)))

module _ (files : Files) (settings : Settings) where
  unfoldable pub redirect_to_index : Request → Request
  unfolding redirect_response
  redirect_to_index r =
      let slash = if ends_with_slash r.path then [] else utf8 "/" in
      set_response moved_temporarily
        (pointer (some (solid (redirect_response (r.path ++ (slash ++ settings.index_file)))))) r

  -- How a step of the handler ends: with a value, with a response, or with an exception.
  abbrev thrown : Request → Cache → Bytes → Request × Cache
  thrown r c m = (fail r internal_server_error m, c)

  abbrev missing : Request → Cache → Bytes → Request × Cache
  missing r c m = (fail r not_found m, c)

  abbrev pub cache_key : WideText → Bytes
  cache_key path = utf8 "static::::" ++ files.narrow path

  unfoldable pub mime_type : WideText → Option Bytes
  unfolding lower find
  mime_type path =
      let extension = lower (files.narrow (files.extension path)) in
      elim (if is_nil extension then none else find extension settings.mime_map) [
        | some mime ↦ some mime
        | none ↦ if settings.enable_unknown_type then some def_mime_type else none
      ]

  abbrev pub response_of : WideText → ℕ → Bytes → ProtoResponse
  response_of path size mime =
      binary mime (if ltb 0 size then some (files.content path size) else none) size

  abbrev pub respond : ℕ → WideText → Request → Cache → ℕ → Option Bytes → Request × Cache
  respond now path r c size none = missing r c unknown_mime_type_text
  respond now path r c size (some mime) =
      let response = response_of path size mime in
      (
        if is_ok r.response.status
            then set_response r.response.status (pointer (some response)) r
            else r,
        store now (cache_key path) (expires_after now file_cache_life_time) r.response.status
            (some response) c,
      )

  abbrev pub sized : ℕ → WideText → Request → Cache → Result Bytes ℕ → Request × Cache
  sized now path r c (err m) = missing r c m
  sized now path r c (ok size) =
      if ltb file_size_limit size
      then missing r c file_too_large_text
      else respond now path r c size (mime_type path)

  abbrev pub read : ℕ → WideText → Request → Cache → Request × Cache
  read now path r c = sized now path r c (files.file_size path)

  abbrev pub aged : ℕ → WideText → Request → Cache → Entry → Result Bytes ℕ → Request × Cache
  aged now path r c e (err m) = missing r c m
  aged now path r c e (ok time) =
      if leb time e.cached_at
      then (set_response e.status (pointer e.response) r, c)
      else read now path r c

  abbrev pub cached : ℕ → WideText → Request → Cache → Option Entry → Request × Cache
  cached now path r c none = read now path r c
  cached now path r c (some e) = aged now path r c e (files.last_write_time path)

  unfoldable pub serve : ℕ → WideText → Request → Cache → Request × Cache
  unfolding maintain load store expires_after mime_type file_too_large_text unknown_mime_type_text
  serve now path r c =
      let kept = maintain now c in cached now path r kept (load (cache_key path) kept)

  abbrev typed : ℕ → WideText → Request → Cache → Result Bytes Bool → Request × Cache
  typed now path r c (err m) = missing r c m
  typed now path r c (ok false) = missing r c bad_filesystem_entity_type_text
  typed now path r c (ok true) = serve now path r c

  abbrev regular : ℕ → WideText → Request → Cache → Result Bytes Bool → Request × Cache
  regular now path r c (err m) = thrown r c m
  regular now path r c (ok false) = missing r c not_found_text
  regular now path r c (ok true) = typed now path r c (files.status path)

  abbrev checked : ℕ → WideText → Request → Cache → Result Bytes Bool → Request × Cache
  checked now path r c (err m) = thrown r c m
  checked now path r c (ok true) = (redirect_to_index r, c)
  checked now path r c (ok false) = regular now path r c (files.is_regular_file path)

  abbrev found : ℕ → WideText → Request → Cache → Request × Cache
  found now name r c =
      if is_nil name
      then (redirect_to_index r, c)
      else let path = files.within name in checked now path r c (files.is_directory path)

  -- `Static::Handler::operator ()`.
  unfoldable pub handle : ℕ → Request → Cache → Request × Cache
  unfolding is_good file_of serve redirect_to_index method_not_allowed_text bad_path_text
      not_found_text bad_filesystem_entity_type_text
  handle now r c = elim (r.method) [
    | get ↦
        if ltb (length r.path) 3 || not (is_good r.path) || not (starts_with (utf8 "/") r.path)
        then (fail r bad_request bad_path_text, c)
        else found now (file_of files r.path) r c
    | _ ↦ (fail r method_not_allowed method_not_allowed_text, c)
  ]
