-- ===== src/Server/Cache/Tests.antt =====
-- The theorems on the cache at concrete entries.
use kkm_https_adapter.Base.{[], ◌∷◌, ◌≡◌, refl, arith, utf8, none, equal}
use kkm_https_adapter.Http.{Status}
use kkm_https_adapter.Http.Maps.{find}
use kkm_https_adapter.Server.Cache.{Cache, Entry, load, maintain}
use kkm_https_adapter.Server.Cache.Laws.{IsValid}

abbrev old : Entry
old = record { response = none; cached_at = 1; expired_at = 5; status = Status.ok }

-- A cache whose next call cleans up.
abbrev full : Cache
full = record { entries = (utf8 "a", old) ∷ []; counter = 199 }

full-IsValid : IsValid full
unfolding find
full-IsValid = record { distinct = (refl, tt); counted = omega arith }

clean_test : load (utf8 "a") (maintain 6 full) ≡ none
unfolding load maintain find equal
clean_test = refl
