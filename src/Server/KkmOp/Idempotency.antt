-- ===== src/Server/KkmOp/Idempotency.antt =====
-- Requests with one idempotency key: the operation runs once while the entry lasts.
use kkm_https_adapter.Base.{
  ℕ, ◌≤◌, true, false, ◌≡◌, refl, ap, ◌∙◌, arith, Option, some, none, Bytes, is_nil, equal,
  equal_iff, Option-cases, List, [], ◌∷◌, Bool-cases, inl, inr,
}
use kkm_https_adapter.Http.{Request, is_ok, set_response}
use kkm_https_adapter.Server.Cache.{Cache, Entry, load, maintain, expires_after}
use kkm_https_adapter.Server.Cache.Laws.{
  IsValid, load-store, load-maintain, store-IsValid, maintain-IsValid,
}
use kkm_https_adapter.Server.KkmOp.{
  Performer, Payload, Ended, returned, thrown, handle, refusal, cache_key, choose, Choice, chosen,
  declined, threw, conclude, response_of, from_cache, after_choice, after_load, load_keyed,
}
use kkm_https_adapter.Server.KkmOp.Table.{Operation}
use kkm_https_adapter.Server.KkmOp.Outcomes.{handle-cached, handle-performed, entry_of}

module _ {W : Type 0} (env : Performer W) where
  -- What a state keeps for a key until its entry runs out.
  abbrev pub Keeps : Bytes → Entry → Cache → Type 0
  Keeps key e c = IsValid c × (load key c ≡ some e)

  maintain-Keeps :
      (now : ℕ) (key : Bytes) (e : Entry) (c : Cache)
      → now ≤ e.expired_at
      → Keeps key e c
      → Keeps key e (maintain now c)
  maintain-Keeps now key e c t (v, l) =
      (maintain-IsValid now c v, load-maintain now key c v ∙ rw l ground arith)

  conclude-Keeps :
      (k key : Bytes) (e : Entry) (r : Request) (c : Cache) (x : Ended Payload W)
      → (is_nil k ≡ false → equal k key ≡ false)
      → Keeps key e c
      → Keeps key e (conclude env k r c x).1
  unfolding conclude
  conclude-Keeps k key e r c (thrown m w) d h = h
  conclude-Keeps k key e r c (returned p w) d (v, l) = elim (Bool-cases (is_nil k)) [
    | inl n ↦ rw n (v, l)
    | inr n ↦ rw n (
      store-IsValid (env.now w) k (expires_after (env.now w) p.expires_after) p.status _ c v,
      load-store (env.now w) k key (expires_after (env.now w) p.expires_after) p.status _ c
          ∙ rw (d n) l,
    )
  ]

  after_choice-Keeps :
      (k key : Bytes) (e : Entry) (r : Request) (c : Cache) (w : W) (x : Choice)
      → (is_nil k ≡ false → equal k key ≡ false)
      → Keeps key e c
      → Keeps key e (after_choice env k r c w x).1
  after_choice-Keeps k key e r c w (chosen o p) d h =
      conclude-Keeps k key e r c (env.perform o p w) d h
  after_choice-Keeps k key e r c w (declined s m) d h = h
  after_choice-Keeps k key e r c w (threw m) d h = h

  missing_differs :
      (k key : Bytes) (e : Entry) (c : Cache)
      → load key c ≡ some e
      → load_keyed k c ≡ none
      → is_nil k ≡ false
      → equal k key ≡ false
  missing_differs k key e c h l n = elim (Bool-cases (equal k key)) [
    | inr d ↦ d
    | inl same ↦
        let here : load k c ≡ none = rw n at l in
        let there : load k c ≡ some e = rw ((equal_iff k key).0 same) h in cc
  ]

  after_load-Keeps :
      (key : Bytes) (e : Entry) (r : Request) (c : Cache) (w : W) (x : Option Entry)
      → load_keyed (cache_key r) c ≡ x
      → Keeps key e c
      → Keeps key e (after_load env r c w x).1
  after_load-Keeps key e r c w (some a) l h = h
  after_load-Keeps key e r c w none l h =
      after_choice-Keeps (cache_key r) key e r c w (choose (env.parse) r)
        (missing_differs (cache_key r) key e c h.1 l) h

  -- Whatever request is handled, the entry stays while it has not run out.
  handle-Keeps :
      (key : Bytes) (e : Entry) (r : Request) (c : Cache) (w : W)
      → env.now w ≤ e.expired_at
      → Keeps key e c
      → Keeps key e (handle env r c w).1
  unfolding handle
  handle-Keeps key e r c w t h = elim (Option-cases (refusal r)) [
    | inr (a, q) ↦ rw q h
    | inl q ↦ rw q (
        after_load-Keeps key e r (maintain (env.now w) c) w _ refl
          (maintain-Keeps (env.now w) key e c t h))
  ]

  -- The handler on a sequence of requests, and the state behind it.
  abbrev pub handle_all : List Request → Cache → W → Cache × W
  handle_all [] c w = (c, w)
  handle_all (r ∷ rs) c w = let (r', c', w') = handle env r c w in handle_all rs c' w'

  -- The clock has not passed this time at the begin of any of the requests, nor behind them.
  abbrev pub IsBefore : ℕ → List Request → Cache → W → Type 0
  IsBefore t [] c w = env.now w ≤ t
  IsBefore t (r ∷ rs) c w =
      (env.now w ≤ t) × IsBefore t rs (handle env r c w).1 (handle env r c w).2

  handle_all-Keeps :
      (key : Bytes) (e : Entry) (rs : List Request) (c : Cache) (w : W)
      → IsBefore e.expired_at rs c w
      → Keeps key e c
      → Keeps key e (handle_all rs c w).0 × (env.now (handle_all rs c w).1 ≤ e.expired_at)
  handle_all-Keeps key e [] c w t h = (h, t)
  handle_all-Keeps key e (r ∷ rs) c w (t, ts) h =
      handle_all-Keeps key e rs _ _ ts (handle-Keeps key e r c w t h)

  -- Idempotency: once a valid cache has an entry for a key that is not empty, a later request with that
  -- key which passes the guards is answered from the entry and leaves the world alone, whatever requests
  -- this handler has in between, if the entry has not run out at any of them.
  pub handle-repeated :
      (e : Entry) (rs : List Request) (r : Request) (c : Cache) (w : W)
      → refusal r ≡ none
      → is_nil (cache_key r) ≡ false
      → IsValid c
      → load (cache_key r) c ≡ some e
      → IsBefore e.expired_at rs c w
      → ((handle env r (handle_all rs c w).0 (handle_all rs c w).1).0 ≡ from_cache e r)
        × ((handle env r (handle_all rs c w).0 (handle_all rs c w).1).2 ≡ (handle_all rs c w).1)
  handle-repeated e rs r c w h k v l t =
      let (keeps, time) = handle_all-Keeps (cache_key r) e rs c w t (v, l) in
      let (c', w') = handle_all rs c w in
      let cached =
        handle-cached env r c' w' e h k
          (maintain-Keeps (env.now w') (cache_key r) e c' time keeps).1 in
      (ap (λ x. x.0) cached, ap (λ x. x.2) cached)

  conclude-IsValid :
      (k : Bytes) (r : Request) (c : Cache) (x : Ended Payload W)
      → IsValid c
      → IsValid (conclude env k r c x).1
  unfolding conclude
  conclude-IsValid k r c (thrown m w) v = v
  conclude-IsValid k r c (returned p w) v = ground (
    arith,
    store-IsValid (env.now w) k (expires_after (env.now w) p.expires_after) p.status
        (some (response_of p)) c v,
  )

  after_choice-IsValid :
      (k : Bytes) (r : Request) (c : Cache) (w : W) (x : Choice)
      → IsValid c
      → IsValid (after_choice env k r c w x).1
  after_choice-IsValid k r c w (chosen o p) v = conclude-IsValid k r c (env.perform o p w) v
  after_choice-IsValid k r c w (declined s m) v = v
  after_choice-IsValid k r c w (threw m) v = v

  after_load-IsValid :
      (r : Request) (c : Cache) (w : W) (x : Option Entry)
      → IsValid c
      → IsValid (after_load env r c w x).1
  after_load-IsValid r c w (some e) v = v
  after_load-IsValid r c w none v =
      after_choice-IsValid (cache_key r) r c w (choose (env.parse) r) v

  -- Every request leaves a valid cache valid.
  pub handle-IsValid : (r : Request) (c : Cache) (w : W) → IsValid c → IsValid (handle env r c w).1
  unfolding handle
  handle-IsValid r c w v = elim (Option-cases (refusal r)) [
    | inr (a, q) ↦ rw q v
    | inl q ↦
        rw q (after_load-IsValid r (maintain (env.now w) c) w _ (maintain-IsValid (env.now w) c v))
  ]

  -- Idempotency, in full: a request whose operation returned, any other requests, and a request with
  -- the same key that passes the guards before the entry runs out: the last one gets the status and
  -- the content of the first one's response, and the world stays as it was.
  pub handle-idempotent :
      (r r' : Request) (rs : List Request) (c : Cache) (w w' : W) (o : Operation) (p q : Payload)
      → refusal r ≡ none
      → is_nil (cache_key r) ≡ false
      → is_ok r.response.status ≡ true
      → IsValid c
      → load (cache_key r) (maintain (env.now w) c) ≡ none
      → choose (env.parse) r ≡ chosen o p
      → env.perform o p w ≡ returned q w'
      → refusal r' ≡ none
      → cache_key r' ≡ cache_key r
      → IsBefore
          (expires_after (env.now w') q.expires_after)
          rs
          (handle env r c w).1
          (handle env r c w).2
      → let (first, c1, w1) = handle env r c w in
        let (c2, w2) = handle_all rs c1 w1 in
        ((handle env r' c2 w2).0 ≡ set_response first.response.status first.response.content r')
        × ((handle env r' c2 w2).2 ≡ w2)
  handle-idempotent r r' rs c w w' o p q h k s v l d e h' same t =
      let (c', done, kept) = handle-performed env r c w w' o p q h k s l d e in
      let here = ap (λ x. x.1) done in
      let again =
        handle-repeated (entry_of env w' q) rs r' (handle env r c w).1 (handle env r c w).2 h'
          (rw same k) (handle-IsValid r c w v) (rw (same, here) kept) t in
      (again.0 ∙ rw done refl, again.1)
