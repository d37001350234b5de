-- ===== src/Server/Cache/Laws.antt =====
-- What the cache keeps.
use kkm_https_adapter.Base.{
  ℕ, ◌+◌, ◌<◌, false, [], ◌∷◌, ◌≡◌, refl, ◌∙◌, arith, Option, some, none, Bytes, equal, equal_iff,
  if◌then◌else◌, ltb, leb, Bool-cases, inl, inr,
}
use kkm_https_adapter.Http.{Status, ProtoResponse}
use kkm_https_adapter.Http.Maps.{Map, find, assign, find-assign}
use kkm_https_adapter.Server.Cache.{
  Cache, Entry, store, load, maintain, unexpired, clean_up_threshold,
}

-- No key is listed twice.
abbrev pub Distinct : Map Entry → Type 0
Distinct [] = Unit {0}
Distinct ((k, e) ∷ m) = (find k m ≡ none) × Distinct m

assign-Distinct : (k : Bytes) (v : Entry) (m : Map Entry) → Distinct m → Distinct (assign k v m)
unfolding assign find
assign-Distinct k v [] h = (refl, tt)
assign-Distinct k v ((j, w) ∷ m) (h, d) = elim (Bool-cases (equal j k)) [
  | inl e ↦ rw e (h, d)
  | inr e ↦
      let other : equal k j ≡ false = ground (arith, equal_iff j k, equal_iff k j) in
      rw e (find-assign k j v m ∙ rw other h, assign-Distinct k v m d)
]

find-unexpired-none :
    (now : ℕ) (k : Bytes) (m : Map Entry) → find k m ≡ none → find k (unexpired now m) ≡ none
unfolding find unexpired
find-unexpired-none now k [] h = refl
find-unexpired-none now k ((j, e) ∷ m) h = ground (arith, find-unexpired-none now k m)

unexpired-Distinct : (now : ℕ) (m : Map Entry) → Distinct m → Distinct (unexpired now m)
unfolding unexpired
unexpired-Distinct now [] h = tt
unexpired-Distinct now ((j, e) ∷ m) (h, d) =
    ground (arith, unexpired-Distinct now m d, find-unexpired-none now j m h)

-- An entry by what the clean-up does to it.
abbrev pub keep_until : ℕ → Option Entry → Option Entry
keep_until now none = none
keep_until now (some e) = if ltb e.expired_at now then none else some e

find-unexpired :
    (now : ℕ) (k : Bytes) (m : Map Entry)
    → Distinct m
    → find k (unexpired now m) ≡ keep_until now (find k m)
unfolding find unexpired
find-unexpired now k [] d = refl
find-unexpired now k ((j, e) ∷ m) (h, d) =
    ground (arith, find-unexpired now k m d, find-unexpired-none now k m, equal_iff j k)

-- The cache as a client may rely on it: distinct keys, and a counter below the threshold.
pub record IsValid (c : Cache) : Type 0 where
  pub distinct : Distinct c.entries
  pub counted : c.counter < clean_up_threshold

pub store-IsValid :
    (now : ℕ) (k : Bytes) (t : ℕ) (s : Status) (r : Option ProtoResponse) (c : Cache)
    → IsValid c
    → IsValid (store now k t s r c)
unfolding store
store-IsValid now k t s r c v = record {
  distinct = assign-Distinct k _ c.entries v.distinct;
  counted = v.counted;
}

-- `maintain` keeps the keys distinct and the counter below the threshold.
pub maintain-IsValid : (now : ℕ) (c : Cache) → IsValid c → IsValid (maintain now c)
unfolding maintain
maintain-IsValid now c v = ground (arith, unexpired-Distinct now c.entries v.distinct)

-- What is stored is loaded, and no other key is touched.
pub load-store :
    (now : ℕ) (k j : Bytes) (t : ℕ) (s : Status) (r : Option ProtoResponse) (c : Cache)
    → load j (store now k t s r c) ≡ (
        if equal k j
        then some (record { response = r; cached_at = now; expired_at = t; status = s })
        else load j c)
unfolding load store
load-store now k j t s r c = find-assign k j _ c.entries

-- `maintain` loses no entry that has not run out; one that has is lost at every clean-up, which the
-- counter calls for, and at no other time.
pub load-maintain :
    (now : ℕ) (k : Bytes) (c : Cache)
    → IsValid c
    → load k (maintain now c)
      ≡ (if leb clean_up_threshold (c.counter + 1) then keep_until now (load k c) else load k c)
unfolding load maintain
load-maintain now k c v = ground (arith, find-unexpired now k c.entries v.distinct)
