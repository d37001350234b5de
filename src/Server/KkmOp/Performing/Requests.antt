-- ===== src/Server/KkmOp/Performing/Requests.antt =====
-- What requests to cash registers do to the world, with the operations of the table behind the handler.
use kkm_https_adapter.Base.{ℕ, List, [], ◌∷◌, Bytes, Result, Option, some, none}
use kkm_https_adapter.Http.{Request, Status}
use kkm_https_adapter.Http.JsonValue.{Json}
use kkm_https_adapter.Server.Cache.{Cache, Entry, maintain}
use kkm_https_adapter.Server.KkmOp.{
  Payload, Performer, Ended, Choice, chosen, declined, threw, handle, refusal, cache_key, choose,
  conclude, after_choice, after_load, after_refusal, load_keyed,
}
use kkm_https_adapter.Server.KkmOp.Idempotency.{handle_all}
use kkm_https_adapter.Server.KkmOp.World.{World, Outside}
use kkm_https_adapter.Server.KkmOp.Registry.{IsFiled}
use kkm_https_adapter.Server.KkmOp.Sessions.{world_of, Follows, Follows-refl, Closes}
use kkm_https_adapter.Server.KkmOp.Performing.{performer}
use kkm_https_adapter.Server.KkmOp.Performing.Follows.{perform-Follows}

module _ {D : Type 0} (now : World D → ℕ) (parse : Bytes → Result Bytes Json) (o : Outside D) where
  abbrev env : Performer (World D)
  env = performer now parse o

  conclude-Follows :
      (k : Bytes) (r : Request) (c : Cache) (w : World D) (e : Ended Payload (World D))
      → Follows w (world_of e)
      → Follows w (conclude env k r c e).2
  unfolding conclude
  conclude-Follows k r c w (Ended.returned p v) f = f
  conclude-Follows k r c w (Ended.thrown m v) f = f

  choice-Follows :
      (k : Bytes) (r : Request) (c : Cache) (w : World D) (x : Choice)
      → Follows w (after_choice env k r c w x).2
  unfolding performer
  choice-Follows k r c w (declined s m) = Follows-refl w
  choice-Follows k r c w (threw m) = Follows-refl w
  choice-Follows k r c w (chosen operation p) =
      conclude-Follows k r c w _ (perform-Follows o operation p w)

  load-Follows :
      (r : Request) (c : Cache) (w : World D) (e : Option Entry)
      → Follows w (after_load env r c w e).2
  unfolding performer
  load-Follows r c w (some e) = Follows-refl w
  load-Follows r c w none = choice-Follows (cache_key r) r c w (choose parse r)

  refusal-Follows :
      (r : Request) (c : Cache) (w : World D) (x : Option (Status × Bytes))
      → Follows w (after_refusal env r c w x).2
  unfolding performer
  refusal-Follows r c w (some (s, m)) = Follows-refl w
  refusal-Follows r c w none =
      let kept = maintain (now w) c in load-Follows r kept w (load_keyed (cache_key r) kept)

  handle-Follows : (r : Request) (c : Cache) (w : World D) → Follows w (handle env r c w).2
  unfolding handle
  handle-Follows r c w = refusal-Follows r c w (refusal r)

  -- However a request ends, it has made no connection to a cash register, or one, which is closed.
  pub handle-Closes : (r : Request) (c : Cache) (w : World D) → Closes w (handle env r c w).2
  handle-Closes r c w = (handle-Follows r c w).closes

  -- Any sequence of requests leaves the parameters under the serial numbers that they hold.
  pub handle_all-IsFiled :
      (rs : List Request) (c : Cache) (w : World D)
      → IsFiled w.registry
      → IsFiled (handle_all env rs c w).1.registry
  handle_all-IsFiled [] c w h = h
  handle_all-IsFiled (r ∷ rs) c w h =
      handle_all-IsFiled rs (handle env r c w).1 (handle env r c w).2
        ((handle-Follows r c w).files h)
