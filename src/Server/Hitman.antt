-- ===== src/Server/Hitman.antt =====
-- src/kkmha/server_hitman.h: an order that is carried out once its time has come, and its use by `stop` of
-- src/kkmha/server_core.cpp. Sleeps are counted, the orders that are carried out are listed. In each
-- sleep another thread may cancel the order; no other step of it falls in between.
pub mod Orders
mod Tests
use kkm_https_adapter.Base.{
  ℕ, zero, suc, ◌+◌, ◌/◌, Bool, true, false, ◌&&◌, List, [], ◌∷◌, Option, none, some, if◌then◌else◌,
}
use mathlib.Core.Option
use kkm_https_adapter.Kkm.Details.{ℤ, pos, negsuc}

-- `m_gun`, where `none` is the function that does nothing, and `m_counter`, with what has happened.
pub record Hitman (G : Type 0) : Type 0 where
  pub gun : Option G
  pub counter : ℤ
  pub fired : List G
  pub slept : ℕ

-- `c_sleepQuantum`, in milliseconds.
abbrev pub sleep_quantum : ℕ
sleep_quantum = 200

abbrev pub is_positive : ℤ → Bool
is_positive (pos (suc n)) = true
is_positive _ = false

abbrev pub decrement : ℤ → ℤ
decrement (pos zero) = negsuc zero
decrement (pos (suc n)) = pos n
decrement (negsuc n) = negsuc (suc n)

abbrev pub rounds : ℤ → ℕ
rounds (pos n) = n
rounds (negsuc n) = zero

module _ {G : Type 0} where
  unfoldable pub new_hitman : Hitman G
  new_hitman = record { gun = none; counter = negsuc zero; fired = []; slept = zero }

  unfoldable pub place_order : G → Hitman G → Hitman G
  place_order g h = record h { gun = some g; counter = pos zero }

  unfoldable pub place_order_in : G → ℕ → Hitman G → Hitman G
  place_order_in g time h = record h { gun = some g; counter = pos (time / sleep_quantum) }

  unfoldable pub cancel_order : Hitman G → Hitman G
  cancel_order h = record h { gun = none; counter = negsuc zero }

  -- A sleep, in which another thread may cancel the order, and `--m_counter`.
  abbrev pub tick : (ℕ → Bool) → Hitman G → Hitman G
  tick cancelled h =
      let now = if cancelled h.slept then cancel_order h else h in
      record now { counter = decrement now.counter; slept = suc h.slept }

  -- The loop on fuel: `none` is that it has not come to its end. What the lock says, and whether the order
  -- is cancelled in a sleep, depends on the sleeps before.
  unfoldable pub awaiting : (ℕ → Bool) → (ℕ → Bool) → ℕ → Hitman G → Option (Hitman G)
  unfolding cancel_order
  awaiting lock cancelled zero h = none
  awaiting lock cancelled (suc n) h =
      let rest = awaiting lock cancelled n (tick cancelled h) in
      if is_positive h.counter && lock h.slept then rest else some h

  -- The fuel: a round for each unit of the counter, and one to find it used up.
  abbrev pub enough : Hitman G → ℕ
  enough h = suc (rounds h.counter)

  unfoldable pub await : (ℕ → Bool) → Hitman G → Option (Hitman G)
  unfolding awaiting
  await cancelled h = awaiting (λ time. true) cancelled (enough h) h

  unfoldable pub await_for : ℕ → (ℕ → Bool) → Hitman G → Option (Hitman G)
  unfolding await
  await_for time cancelled h = await cancelled (record h { counter = pos (time / sleep_quantum) })

  abbrev pub set_counter : ℕ → Hitman G → Hitman G
  set_counter n h = record h { counter = pos n }

  unfoldable pub await_locked : (ℕ → Bool) → (ℕ → Bool) → Hitman G → Option (Hitman G)
  unfolding awaiting
  await_locked lock cancelled h =
      Option.map (set_counter zero) (awaiting lock cancelled (enough h) h)

  unfoldable pub await_locked_for : ℕ → (ℕ → Bool) → (ℕ → Bool) → Hitman G → Option (Hitman G)
  unfolding await_locked
  await_locked_for time lock cancelled h =
      await_locked lock cancelled (record h { counter = pos (time / sleep_quantum) })

  abbrev shoot : Option G → List G → List G
  shoot none fired = fired
  shoot (some g) fired = g ∷ fired

  abbrev pub finish : ℤ → Hitman G → Hitman G
  finish (negsuc n) h = h
  finish (pos n) h = record h { gun = none; counter = negsuc zero; fired = shoot h.gun h.fired }

  unfoldable pub complete_order : Hitman G → Hitman G
  complete_order h = finish h.counter h

  abbrev pub after_wait : (Hitman G → Option (Hitman G)) → Option (Hitman G) → Option (Hitman G)
  after_wait next none = none
  after_wait next (some h) = next h

  -- What `stop` of src/kkmha/server_core.cpp does with it: `c_controlTimeout` and `c_sleep` are the times.
  unfoldable pub stop : ℕ → ℕ → (ℕ → Bool) → (ℕ → Bool) → Hitman G → Option (Hitman G)
  unfolding await_for await_locked_for complete_order
  stop control_timeout sleep busy cancelled h =
      Option.map complete_order
        (after_wait (await_for sleep cancelled) (await_locked_for control_timeout busy cancelled h))
