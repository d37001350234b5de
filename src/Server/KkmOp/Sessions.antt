-- ===== src/Server/KkmOp/Sessions.antt =====
-- What an operation on a cash register does to the world: its connection, and the registry.
use kkm_https_adapter.Base.{
  ◌∷◌, Option, some, none, is_nil, Result, ok, err, Bool-cases, ◌⊎◌, inl, inr, ◌≡◌, refl, ap,
}
use mathlib.Core.Path.{subst}
use kkm_https_adapter.Kkm.Driver.{WideText, Driver, Command, History, call}
use kkm_https_adapter.Kkm.Method.{Device, Method, Flow, going, left, threw}
use kkm_https_adapter.Kkm.Initial.{new_result}
use kkm_https_adapter.Kkm.Connection.{connect_known, destroy, new_device}
use kkm_https_adapter.Kkm.Connection.Checked.{Checked, connect_known-Checked}
use kkm_https_adapter.Kkm.ConnParams.{KnownConnParams, known_conn_params, apply}
use kkm_https_adapter.Kkm.ConnParams.Serials.{known_conn_params-serial}
use kkm_https_adapter.Kkm.ConnParams.Applied.{apply-Stays}
use kkm_https_adapter.Kkm.Export.Collecting.{Call, Called, called, thrown}
use kkm_https_adapter.Server.KkmOp.{Payload, Ended}
use kkm_https_adapter.Server.KkmOp.World.{
  World, Outside, Resolved, resolved, refused, broken, registered, remember, look_up,
  resolve_conn_params, gone, connected, session, passed, as_fields,
}
use kkm_https_adapter.Server.KkmOp.Registry.{IsFiled, register-IsFiled, registered-IsFiled}
use kkm_https_adapter.Server.KkmOp.Operations.{ended, on_resolved, with_device}

module _ {D : Type 0} where
  abbrev pub world_of : Ended Payload (World D) → World D
  world_of (Ended.returned p w) = w
  world_of (Ended.thrown m w) = w

  -- No connection has been made, or one, which is closed.
  abbrev pub Closes : World D → World D → Type 0
  Closes w v =
      (v.past ≡ w.past) ⊎ ((h : History) × (v.past ≡ (call Command.close_device ∷ h) ∷ w.past))

  pub record Follows (w v : World D) : Type 0 where
    pub closes : Closes w v
    pub files : IsFiled w.registry → IsFiled v.registry

  -- The world, its connections aside, on the way to `v`.
  pub record Leads (w v : World D) : Type 0 where
    pub past : v.past ≡ w.past
    pub files : IsFiled w.registry → IsFiled v.registry

  pub Follows-refl : (w : World D) → Follows w w
  Follows-refl w = record { closes = inl refl; files = λ f. f }

module _ {D : Type 0} (o : Outside D) where
  pub passed-Follows : (w v : World D) (d : Device) → Leads w v → Follows w (passed o (destroy d) v)
  unfolding destroy
  passed-Follows w v d l = record {
    closes = inr (_, ap (◌∷◌ (destroy d).history) l.past);
    files = l.files;
  }

  ended-Follows :
      (w v : World D) (p : Payload) (c : Called)
      → Leads w v
      → Follows w (world_of (ended o p v (gone o c)))
  ended-Follows w v p (called json d) l = passed-Follows w v d l
  ended-Follows w v p (thrown m d) l = passed-Follows w v d l

  -- What a resolution has found: parameters for the serial number, in a world that has them.
  abbrev pub Found : WideText → World D → Resolved D → Type 0
  Found s w (resolved params v) = Leads w v × (IsFiled w.registry → params.serial_number ≡ s)
  Found s w (refused p) = Unit
  Found s w (broken m) = Unit

  remember-Found :
      (s : WideText) (w : World D) (r : Result WideText KnownConnParams)
      → ((p : KnownConnParams) → r ≡ ok p → p.serial_number ≡ s)
      → Found s w (remember o s w r)
  remember-Found s w (err m) h = tt
  remember-Found s w (ok p) h =
      (record { past = refl; files = register-IsFiled s p w.registry (h p refl) }, λ f. h p refl)

  look_up-Found :
      (s : WideText) (w : World D) (r : Option KnownConnParams)
      → registered s w.registry ≡ r
      → Found s w (look_up o s w r)
  look_up-Found s w (some p) h =
      (record { past = refl; files = λ f. f }, λ f. registered-IsFiled s p w.registry f h)
  look_up-Found s w none h =
      remember-Found s w (known_conn_params o.disk o.setup.conversions s w.files)
        (λ p e. known_conn_params-serial o.disk o.setup.conversions s w.files p e)

  abbrev pub asked_for : Payload → WideText
  asked_for p = o.setup.conversions.widen p.serial_number

  resolve_conn_params-Found :
      (p : Payload) (w : World D) → Found (asked_for p) w (resolve_conn_params o p w)
  unfolding resolve_conn_params
  resolve_conn_params-Found p w = elim (Bool-cases (is_nil p.serial_number)) [
    | inl e ↦ rw e tt
    | inr e ↦ rw e (look_up-Found (asked_for p) w (registered (asked_for p) w.registry) refl)
  ]

  on_resolved-Follows :
      (a : Driver → Call) (p : Payload) (w : World D) (r : Resolved D)
      → Found (asked_for p) w r
      → Follows w (world_of (on_resolved o a p w r))
  unfolding session
  on_resolved-Follows a p w (resolved params v) f = ended-Follows w v p _ f.0
  on_resolved-Follows a p w (refused q) f = Follows-refl w
  on_resolved-Follows a p w (broken m) f = Follows-refl w

  pub with_device-Follows :
      (a : Driver → Call) (p : Payload) (w : World D) → Follows w (world_of (with_device o a p w))
  unfolding with_device
  with_device-Follows a p w =
      on_resolved-Follows a p w (resolve_conn_params o p w) (resolve_conn_params-Found p w)

  abbrev Outcome : Type 0
  Outcome = (Driver → Call) → Ended Payload (World D)

  -- What is done with the device does not matter, or the device has the serial number `s`.
  abbrev pub Reaches : WideText → Payload → Outcome → Type 0
  Reaches s p f =
      ((a b : Driver → Call) → f a ≡ f b)
      ⊎ ((v : World D) × (d : Device) × (d.serial_number ≡ s)
          × ((a : Driver → Call)
              → f a ≡ ended o p v (gone o (a (o.driver v.past) (as_fields p.result) d))))

  connected-Reaches :
      (s : WideText) (p : Payload) (v : World D) (f : Flow Unit)
      → Checked s f
      → Reaches s p
          (λ a. ended o p v (gone o (connected o (a (o.driver v.past) (as_fields p.result)) f)))
  connected-Reaches s p v (going r d) h = inr (v, d, h, λ a. refl)
  connected-Reaches s p v (left r d) h = absurd h
  connected-Reaches s p v (threw m d) h = inl (λ a b. refl)

  resolved-Reaches :
      (p : Payload) (w : World D) (r : Resolved D)
      → Found (asked_for p) w r
      → IsFiled w.registry
      → Reaches (asked_for p) p (λ a. on_resolved o a p w r)
  unfolding session
  resolved-Reaches p w (resolved params v) f h =
      let k = o.driver v.past in
      let applied : Method Unit = apply k o.conn_settings params.params in
      let made : Flow Unit =
        connect_known k o.device_settings applied params.serial_number (new_result tt) new_device in
      let checked : Checked params.serial_number made =
        connect_known-Checked k o.device_settings applied
          (apply-Stays k o.conn_settings params.params) params.serial_number (new_result tt)
          new_device in
      connected-Reaches (asked_for p) p v made (subst (λ s. Checked s made) (f.1 h) checked)
  resolved-Reaches p w (refused q) f h = inl (λ a b. refl)
  resolved-Reaches p w (broken m) f h = inl (λ a b. refl)

  -- In a world with a filed registry, either it makes no difference to a request which call it makes of
  -- its device, or the call is made of a device that has reported the serial number that the request
  -- asks for.
  pub with_device-Reaches :
      (p : Payload) (w : World D)
      → IsFiled w.registry
      → Reaches (asked_for p) p (λ a. with_device o a p w)
  unfolding with_device
  with_device-Reaches p w h =
      resolved-Reaches p w (resolve_conn_params o p w) (resolve_conn_params-Found p w) h
