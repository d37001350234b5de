-- ===== src/Server/Hitman/Orders.antt =====
-- What becomes of an order.
use kkm_https_adapter.Base.{
  ℕ, zero, suc, ◌+◌, ◌/◌, ◌≤◌, ◌<◌, Bool, true, false, ◌&&◌, ◌∷◌, Option, some, none, arith,
  Bool-cases, ◌⊎◌, inl, inr, ◌≡◌, refl, ap, ◌∙◌,
}
use mathlib.Core.Option
use kkm_https_adapter.Kkm.Details.{ℤ, pos, negsuc}
use kkm_https_adapter.Server.Hitman.{
  Hitman, sleep_quantum, is_positive, rounds, cancel_order, place_order, awaiting, tick, await_for,
  await_locked_for, complete_order, finish, set_counter, after_wait, stop,
}

positive_lem : (z : ℤ) → is_positive z ≡ true → (n : ℕ) × (z ≡ pos (suc n))
positive_lem (pos zero) h = cc
positive_lem (pos (suc n)) h = (n, refl)
positive_lem (negsuc n) h = cc

module _ {G : Type 0} (cancelled : ℕ → Bool) (g : G) where
  -- The order stands, or it has been cancelled in a sleep.
  abbrev Armed : Hitman G → Type 0
  Armed h =
      ((h.gun ≡ some g) × ((n : ℕ) × (h.counter ≡ pos n)))
      ⊎ ((h.gun ≡ none) × ((time : ℕ) × (cancelled time ≡ true)))

  -- A wait from `h` has ended with `w`, and has not taken longer than the counter says.
  record Waited (h : Hitman G) (n : ℕ) (o : Option (Hitman G)) : Type 0 where
    end : Hitman G
    ended : o ≡ some end
    armed : Armed end
    fired : end.fired ≡ h.fired
    slept : end.slept ≤ h.slept + n

  tick-Armed :
      (h : Hitman G) (n : ℕ)
      → h.counter ≡ pos (suc n)
      → Armed h
      → Armed (tick cancelled h)
        × (rounds (tick cancelled h).counter ≤ n)
        × ((tick cancelled h).fired ≡ h.fired)
        × ((tick cancelled h).slept ≡ suc h.slept)
  unfolding cancel_order
  tick-Armed h n e a = elim (Bool-cases (cancelled h.slept)) [
    | inl c ↦ rw c (inr (refl, (h.slept, c)), omega arith, refl, refl)
    | inr c ↦ rw (c, e) (kept a, omega arith, refl, refl)
  ]
    where
      kept : Armed h → Armed (record h { counter = pos n; slept = suc h.slept })
      kept (inl (s, t)) = inl (s, (n, refl))
      kept (inr c) = inr c

  awaiting-Waited :
      (lock : ℕ → Bool) (n : ℕ) (h : Hitman G)
      → rounds h.counter < n
      → Armed h
      → Waited h (rounds h.counter) (awaiting lock cancelled n h)
  unfolding awaiting
  awaiting-Waited lock zero h m a = absurd (omega arith)
  awaiting-Waited lock (suc n) h m a = elim (Bool-cases (is_positive h.counter && lock h.slept)) [
    | inl e ↦
        let (k, p) = positive_lem h.counter (first (is_positive h.counter) (lock h.slept) e) in
        let (armed, less, fired, slept) = tick-Armed h k p a in
        let size : rounds h.counter ≡ suc k = rw p refl in
        let rest = awaiting-Waited lock n (tick cancelled h) (omega arith) armed in
        rw e (record {
          end = rest.end;
          ended = rest.ended;
          armed = rest.armed;
          fired = rest.fired ∙ fired;
          slept = omega (arith, rest.slept);
        })
    | inr e ↦ rw e (record { end = h; ended = refl; armed = a; fired = refl; slept = omega arith })
  ]
    where
      first : (a b : Bool) → (a && b) ≡ true → a ≡ true
      first true b h = refl
      first false b h = cc

  set_counter-Armed : (n : ℕ) (h : Hitman G) → Armed h → Armed (set_counter n h)
  set_counter-Armed n h (inl (s, t)) = inl (s, (n, refl))
  set_counter-Armed n h (inr c) = inr c

  await_for-Waited :
      (time : ℕ) (h : Hitman G)
      → Armed h
      → Waited h (time / sleep_quantum) (await_for time cancelled h)
  unfolding await_for
  await_for-Waited time h a =
      let n = time / sleep_quantum in
      let w =
        awaiting-Waited (λ t. true) (suc n) (set_counter n h) (omega arith)
          (set_counter-Armed n h a) in
      record { end = w.end; ended = w.ended; armed = w.armed; fired = w.fired; slept = w.slept }

  await_locked_for-Waited :
      (time : ℕ) (busy : ℕ → Bool) (h : Hitman G)
      → Armed h
      → Waited h (time / sleep_quantum) (await_locked_for time busy cancelled h)
  unfolding await_locked_for
  await_locked_for-Waited time busy h a =
      let n = time / sleep_quantum in
      let w =
        awaiting-Waited busy (suc n) (set_counter n h) (omega arith) (set_counter-Armed n h a) in
      record {
        end = set_counter zero w.end;
        ended = ap (Option.map (set_counter zero)) w.ended;
        armed = set_counter-Armed zero w.end w.armed;
        fired = w.fired;
        slept = w.slept;
      }

  -- How an order may end that stood in `h`: it is carried out, or it has been cancelled in a sleep.
  abbrev pub IsSettled : Hitman G → Hitman G → Type 0
  IsSettled h w =
      (w.fired ≡ g ∷ h.fired) ⊎ ((w.fired ≡ h.fired) × ((time : ℕ) × (cancelled time ≡ true)))

  complete-Armed : (h : Hitman G) → Armed h → IsSettled h (complete_order h)
  unfolding complete_order
  complete-Armed h (inl (e, (n, f))) = rw (f, e) (inl refl)
  complete-Armed h (inr (e, c)) = unarmed h.counter
    where
      unarmed : (z : ℤ) → IsSettled h (finish z h)
      unarmed (pos n) = rw e (inr (refl, c))
      unarmed (negsuc n) = inr (refl, c)

  complete_order_idem : (h : Hitman G) → complete_order (complete_order h) ≡ complete_order h
  unfolding complete_order
  complete_order_idem h = again h.counter refl
    where
      again : (z : ℤ) → h.counter ≡ z → finish (finish z h).counter (finish z h) ≡ finish z h
      again (pos n) e = refl
      again (negsuc n) e = rw e refl

  complete_order_slept : (h : Hitman G) → (complete_order h).slept ≡ h.slept
  unfolding complete_order
  complete_order_slept h = same h.counter
    where
      same : (z : ℤ) → (finish z h).slept ≡ h.slept
      same (pos n) = refl
      same (negsuc n) = refl

  IsSettled-trans : (h w v : Hitman G) → w.fired ≡ h.fired → IsSettled w v → IsSettled h v
  IsSettled-trans h w v e (inl f) = inl (f ∙ ap (◌∷◌ g) e)
  IsSettled-trans h w v e (inr (f, c)) = inr (f ∙ e, c)

  -- An order is placed, and the server is stopped: however long requests run, and whenever the order is
  -- cancelled in a sleep, both loops come to their end, after no more sleeps than the two times allow. In
  -- the end the order has been carried out, once, or has been cancelled, and a further completion
  -- carries out nothing.
  pub stop-settles :
      (control_timeout sleep : ℕ) (busy : ℕ → Bool) (h : Hitman G)
      → (w : Hitman G) × (stop control_timeout sleep busy cancelled (place_order g h) ≡ some w)
        × IsSettled h w
        × (complete_order w ≡ w)
        × (w.slept ≤ h.slept + control_timeout / sleep_quantum + sleep / sleep_quantum)
  unfolding stop place_order
  stop-settles control_timeout sleep busy h =
      let first =
        await_locked_for-Waited control_timeout busy (place_order g h) (inl (refl, (zero, refl))) in
      let second = await_for-Waited sleep first.end first.armed in
      (
        complete_order second.end,
        ap (λ o. Option.map complete_order (after_wait (await_for sleep cancelled) o)) first.ended
            ∙ ap (Option.map complete_order) second.ended,
        IsSettled-trans h second.end (complete_order second.end) (second.fired ∙ first.fired)
            (complete-Armed second.end second.armed),
        complete_order_idem second.end,
        omega (arith, first.slept, second.slept, complete_order_slept second.end),
      )
