-- ===== src/Server/Static/Again.antt =====
-- A file that has been served is served again from the cache.
use kkm_https_adapter.Base.{
  ℕ, ◌+◌, ◌≤◌, true, false, some, none, Bytes, ok, ltb, leb, arith, ◌≡◌, refl, ap, ◌∙◌, equal_refl,
}
use kkm_https_adapter.Http.{Request, Status, pointer, set_response}
use kkm_https_adapter.Kkm.Driver.{WideText}
use kkm_https_adapter.Server.Cache.{Cache, Entry, store, load, maintain, expires_after}
use kkm_https_adapter.Server.Cache.Laws.{
  IsValid, store-IsValid, maintain-IsValid, load-store, load-maintain,
}
use kkm_https_adapter.Server.Static.{
  Files, Settings, cache_key, mime_type, file_size_limit, file_cache_life_time, response_of, serve,
}

module _ (files : Files) (settings : Settings) where
  abbrev entry : ℕ → WideText → ℕ → Bytes → Entry
  entry now path size mime = record {
    response = some (response_of files settings path size mime);
    cached_at = now;
    expired_at = expires_after now file_cache_life_time;
    status = Status.ok;
  }

  abbrev stored : ℕ → WideText → ℕ → Bytes → Cache → Cache
  stored now path size mime c =
      store now (cache_key files settings path) (expires_after now file_cache_life_time) Status.ok
        (some (response_of files settings path size mime)) (maintain now c)

  serve_fresh :
      (now : ℕ) (path : WideText) (r : Request) (c : Cache) (size : ℕ) (mime : Bytes)
      → r.response.status ≡ Status.ok
      → load (cache_key files settings path) (maintain now c) ≡ none
      → files.file_size path ≡ ok size
      → ltb file_size_limit size ≡ false
      → mime_type files settings path ≡ some mime
      → serve files settings now path r c ≡ (
        set_response Status.ok (pointer (some (response_of files settings path size mime))) r,
        stored now path size mime c,
      )
  unfolding serve
  serve_fresh now path r c size mime s l f b m = rw (l, f, b, m, s) refl

  -- The cache behind a file that has been served still has its entry at a time when it has not run out.
  kept_entry :
      (now later : ℕ) (path : WideText) (c : Cache) (size : ℕ) (mime : Bytes)
      → IsValid c
      → later ≤ now + file_cache_life_time
      → load (cache_key files settings path) (maintain later (stored now path size mime c))
        ≡ some (entry now path size mime)
  unfolding expires_after
  kept_entry now later path c size mime v t =
      let key = cache_key files settings path in
      let response = some (response_of files settings path size mime) in
      let valid =
        store-IsValid now key (now + file_cache_life_time) Status.ok response (maintain now c)
          (maintain-IsValid now c v) in
      let there : load key (stored now path size mime c) ≡ some (entry now path size mime) =
        load-store now key key (now + file_cache_life_time) Status.ok response (maintain now c)
        ∙ rw (equal_refl key) refl in
      load-maintain later key (stored now path size mime c) valid ∙ rw there ground (arith, t)

  -- A file of a permitted size and a known type, for which a valid cache has no entry, is read; until the
  -- entry that it gets runs out, and while its last change is reported as not after that, it is served
  -- from the cache as it was read, whatever the file system has become otherwise.
  pub serve-again :
      (after : Files) (now later : ℕ) (path : WideText) (r s : Request) (c : Cache) (size time : ℕ)
      (mime : Bytes)
      → IsValid c
      → r.response.status ≡ Status.ok
      → load (cache_key files settings path) (maintain now c) ≡ none
      → files.file_size path ≡ ok size
      → ltb file_size_limit size ≡ false
      → mime_type files settings path ≡ some mime
      → later ≤ now + file_cache_life_time
      → after.narrow path ≡ files.narrow path
      → after.last_write_time path ≡ ok time
      → leb time now ≡ true
      → serve after settings later path s (serve files settings now path r c).1 ≡ (
        set_response Status.ok (pointer (some (response_of files settings path size mime))) s,
        maintain later (serve files settings now path r c).1,
      )
  unfolding serve
  serve-again after now later path r s c size time mime v q l f b m t n w e =
      let first = ap (λ x. x.1) (serve_fresh now path r c size mime q l f b m) in
      let there = kept_entry now later path c size mime v t in rw (first, n, there, w, e) refl
