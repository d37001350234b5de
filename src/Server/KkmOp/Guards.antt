-- ===== src/Server/KkmOp/Guards.antt =====
-- The first part of `operator ()` of src/kkmha/server_kkmop_handler.cpp: the key, the guards, and the
-- key of the cache.
use kkm_https_adapter.Base.{
  Bool, true, false, ◌&&◌, not, List, [], ◌∷◌, ◌++◌, Option, some, none, Bytes, utf8, equal, is_nil,
  if◌then◌else◌,
}
use kkm_https_adapter.Text.{split_to, trim, split_variable, assignment_signs}
use kkm_https_adapter.Http.{Request, Status, get, post, bad_request, method_not_allowed, Method}
use kkm_https_adapter.Http.Maps.{find}
use kkm_https_adapter.Server.Settings.{
  invalid_key_text, invalid_content_type_text, method_not_allowed_text,
}

abbrev or_empty : Option Bytes → Bytes
or_empty none = []
or_empty (some t) = t

unfoldable pub idempotency_key : Request → Bytes
unfolding find
idempotency_key r = or_empty (find (utf8 "x-idempotency-key") r.header)

-- The loop over the parts of `content-type`, with `typeOk` and `charsetOk`.
unfoldable pub good_chunks : Bool → Bool → List Bytes → Bool
unfolding trim split_variable
good_chunks type_ok charset_ok [] = type_ok && charset_ok
good_chunks type_ok charset_ok (part ∷ chunks) =
    let chunk = trim part in
    let (name, value) = split_variable chunk true true assignment_signs in
    let bad =
      equal name (utf8 "charset")
      && not (equal value (utf8 "utf-8"))
      && not (equal value (utf8 "utf8")) in
    if equal chunk (utf8 "application/json")
    then good_chunks true charset_ok chunks
    else if bad
    then good_chunks type_ok false chunks
    else good_chunks type_ok charset_ok chunks

unfoldable pub good_content_type : Option Bytes → Bool
unfolding good_chunks split_to
good_content_type none = true
good_content_type (some value) = good_chunks false true (split_to [] value (utf8 " ;") true).0

-- The tests in front of the cache: what the request is refused with.
unfoldable pub refusal : Request → Option (Status × Bytes)
unfolding idempotency_key good_content_type find invalid_key_text invalid_content_type_text
refusal r = elim (r.method) [
  | post ↦
      if is_nil (idempotency_key r)
      then some (bad_request, invalid_key_text)
      else if not (good_content_type (find (utf8 "content-type") r.header))
      then some (bad_request, invalid_content_type_text)
      else none
  | get ↦ none
  | Method.not_implemented ↦ some (method_not_allowed, method_not_allowed_text)
]

unfoldable pub cache_key : Request → Bytes
unfolding idempotency_key
cache_key r =
    if is_nil (idempotency_key r)
    then []
    else utf8 "kkm::::" ++ (r.remote.shown ++ (utf8 "::::" ++ idempotency_key r))
