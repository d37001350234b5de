-- ===== src/Server/KkmOp/Outcomes.antt =====
-- How one request to a cash register ends.
use kkm_https_adapter.Base.{
  ◌⊎◌, inl, inr, Option-cases, true, false, ◌≡◌, refl, ap, ◌∙◌, some, none, Bytes, is_nil,
  equal_refl,
}
use kkm_https_adapter.Http.{Request, is_ok, set_response, pointer, internal_server_error}
use kkm_https_adapter.Server.Handler.{fail}
use kkm_https_adapter.Server.Cache.{Cache, Entry, load, store, maintain, expires_after}
use kkm_https_adapter.Server.Cache.Laws.{load-store}
use kkm_https_adapter.Server.KkmOp.{
  after_choice, load_keyed, declined, threw, Choice, Performer, Payload, returned, thrown, handle,
  refusal, cache_key, choose, chosen, conclude, response_of, from_cache,
}
use kkm_https_adapter.Server.KkmOp.Table.{Operation}

module _ {W : Type 0} (env : Performer W) where
  -- What must hold of a request that changes the world.
  abbrev pub Performs : Request → Cache → W → Type 0
  Performs r c w =
      (refusal r ≡ none)
      × (load_keyed (cache_key r) (maintain (env.now w) c) ≡ none)
      × ((o : Operation) × (p : Payload) × (choose (env.parse) r ≡ chosen o p))

  choice_effects :
      (k : Bytes) (r : Request) (c : Cache) (w : W) (x : Choice)
      → ((after_choice env k r c w x).2 ≡ w) ⊎ ((o : Operation) × (p : Payload) × (x ≡ chosen o p))
  choice_effects k r c w (chosen o p) = inr (o, p, refl)
  choice_effects k r c w (declined s m) = inl refl
  choice_effects k r c w (threw m) = inl refl

  -- A request leaves the world as it is, unless it passes the guards, its key is not in the cache, and
  -- its hint and its body choose an operation.
  pub handle-effects :
      (r : Request) (c : Cache) (w : W) → ((handle env r c w).2 ≡ w) ⊎ Performs r c w
  unfolding handle
  handle-effects r c w = elim (Option-cases (refusal r)) [
    | inr (a, q) ↦ rw q (inl refl)
    | inl q ↦ elim (Option-cases (load_keyed (cache_key r) (maintain (env.now w) c))) [
      | inr (e, l) ↦ rw (q, l) (inl refl)
      | inl l ↦
          rw (q, l)
            (elim (choice_effects (cache_key r) r (maintain (env.now w) c) w
              (choose (env.parse) r)) [ inl same ↦ inl same | inr there ↦ inr (refl, refl, there) ])
    ]
  ]

  -- A request whose key is in the cache is answered from it: no operation runs, and the world is as
  -- it was.
  pub handle-cached :
      (r : Request) (c : Cache) (w : W) (e : Entry)
      → refusal r ≡ none
      → is_nil (cache_key r) ≡ false
      → load (cache_key r) (maintain (env.now w) c) ≡ some e
      → handle env r c w ≡ (from_cache e r, maintain (env.now w) c, w)
  unfolding handle
  handle-cached r c w e h k l = rw (h, k, l) refl

  -- A request whose key is not in the cache runs the operation that its hint chooses, once.
  handle-fresh :
      (r : Request) (c : Cache) (w : W) (o : Operation) (p : Payload)
      → refusal r ≡ none
      → is_nil (cache_key r) ≡ false
      → load (cache_key r) (maintain (env.now w) c) ≡ none
      → choose (env.parse) r ≡ chosen o p
      → handle env r c w ≡ conclude env (cache_key r) r (maintain (env.now w) c) (env.perform o p w)
  unfolding handle
  handle-fresh r c w o p h k l q = rw (h, k, l, q) refl

  -- An operation that throws is answered with an internal server error, and nothing is stored: the
  -- next request with the same key runs the operation again.
  pub handle-thrown :
      (r : Request) (c : Cache) (w w' : W) (o : Operation) (p : Payload) (m : Bytes)
      → refusal r ≡ none
      → is_nil (cache_key r) ≡ false
      → load (cache_key r) (maintain (env.now w) c) ≡ none
      → choose (env.parse) r ≡ chosen o p
      → env.perform o p w ≡ thrown m w'
      → handle env r c w ≡ (fail r internal_server_error m, maintain (env.now w) c, w')
  unfolding conclude
  handle-thrown r c w w' o p m h k l q e =
      handle-fresh r c w o p h k l q ∙ ap (conclude env (cache_key r) r (maintain (env.now w) c)) e

  -- The entry that the response to a payload makes.
  abbrev pub entry_of : W → Payload → Entry
  entry_of w p = record {
    response = some (response_of p);
    cached_at = env.now w;
    expired_at = expires_after (env.now w) p.expires_after;
    status = p.status;
  }

  -- An operation that returns is answered with its payload's response, and leaves that response in
  -- the cache under the request's key.
  pub handle-performed :
      (r : Request) (c : Cache) (w w' : W) (o : Operation) (p q : Payload)
      → refusal r ≡ none
      → is_nil (cache_key r) ≡ false
      → is_ok r.response.status ≡ true
      → load (cache_key r) (maintain (env.now w) c) ≡ none
      → choose (env.parse) r ≡ chosen o p
      → env.perform o p w ≡ returned q w'
      → (c' : Cache) × (handle env r c w
          ≡ (set_response q.status (pointer (some (response_of q))) r, c', w'))
        × (load (cache_key r) c' ≡ some (entry_of w' q))
  unfolding conclude
  handle-performed r c w w' o p q h k s l d e =
      let kept = maintain (env.now w) c in
      let t = expires_after (env.now w') q.expires_after in
      (
        store (env.now w') (cache_key r) t q.status (some (response_of q)) kept,
        handle-fresh r c w o p h k l d
            ∙ (ap (conclude env (cache_key r) r kept) e ∙ rw (k, s) refl),
        load-store (env.now w') (cache_key r) (cache_key r) t q.status (some (response_of q)) kept
            ∙ rw (equal_refl (cache_key r)) refl,
      )
