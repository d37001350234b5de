-- ===== src/Server/Cache.antt =====
-- src/kkmha/server_cache_core.cpp and server_cache_types.h. Each function holds the mutex for its whole
-- body; a call is one step here (the counter of `maintain` is atomic, and stands before its lock); the
-- time is an argument.
pub mod Laws
mod Tests
use kkm_https_adapter.Base.{
  ℕ, ◌+◌, Bool, true, false, List, [], ◌∷◌, Option, some, none, Bytes, if◌then◌else◌, ltb, leb,
}
use kkm_https_adapter.Http.{Status, ProtoResponse}
use kkm_https_adapter.Http.Maps.{Map, find, assign}

pub record Entry : Type 0 where
  pub response : Option ProtoResponse
  pub cached_at : ℕ
  pub expired_at : ℕ
  pub status : Status

-- `s_cache` and `s_counter`.
pub record Cache : Type 0 where
  pub entries : Map Entry
  pub counter : ℕ

unfoldable pub expires_after : ℕ → ℕ → ℕ
expires_after now seconds = now + seconds

-- `store` with the four parts of an entry.
unfoldable pub store : ℕ → Bytes → ℕ → Status → Option ProtoResponse → Cache → Cache
unfolding assign
store now key expired_at status response c = record c {
  entries =
      assign key
        (record { response = response; cached_at = now; expired_at = expired_at; status = status })
        c.entries;
}

unfoldable pub load : Bytes → Cache → Option Entry
unfolding find
load key c = find key c.entries

-- `std::erase_if` of the entries that have run out.
unfoldable pub unexpired : ℕ → Map Entry → Map Entry
unexpired now [] = []
unexpired now ((k, e) ∷ m) =
    if ltb e.expired_at now then unexpired now m else (k, e) ∷ unexpired now m

abbrev pub clean_up_threshold : ℕ
clean_up_threshold = 200

unfoldable pub maintain : ℕ → Cache → Cache
unfolding unexpired
maintain now c =
    if leb clean_up_threshold (c.counter + 1)
    then record { entries = unexpired now c.entries; counter = 0 }
    else record { entries = c.entries; counter = c.counter + 1 }
