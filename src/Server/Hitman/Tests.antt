-- ===== src/Server/Hitman/Tests.antt =====
-- An order that is waited for while three sleeps' worth of requests run, and one that is cancelled.
use kkm_https_adapter.Base.{
  ℕ, Bool, ltb, ◌+◌, ◌/◌, ◌==◌, ◌≤◌, [], ◌∷◌, Option, some, false, ◌≡◌, refl, List,
}
use kkm_https_adapter.Server.Hitman.{
  Hitman, sleep_quantum, new_hitman, place_order, stop, complete_order,
}
use kkm_https_adapter.Server.Hitman.Orders.{stop-settles, IsSettled}

abbrev slept_of : Option (Hitman ℕ) → ℕ
slept_of (some h) = h.slept
slept_of Option.none = 0

abbrev fired_of : Option (Hitman ℕ) → List ℕ
fired_of (some h) = h.fired
fired_of Option.none = []

abbrev stopped : (ℕ → Bool) → Option (Hitman ℕ)
stopped cancelled = stop 15000 500 (λ time. ltb time 3) cancelled (place_order 7 new_hitman)

three_and_two : slept_of (stopped (λ time. false)) ≡ 5
unfolding stop place_order new_hitman
three_and_two = refl

carried_out : fired_of (stopped (λ time. false)) ≡ 7 ∷ []
unfolding stop place_order new_hitman
carried_out = refl

taken_back : fired_of (stopped (λ time. time == 1)) ≡ []
unfolding stop place_order new_hitman
taken_back = refl

stop-settles_example :
    (w : Hitman ℕ) × (stop 15000 500
        (λ time. ltb time 3)
        (λ time. time == 1)
        (place_order 7 new_hitman)
      ≡ some w)
    × IsSettled (λ time. time == 1) 7 new_hitman w
    × (complete_order w ≡ w)
    × (w.slept ≤ 0 + 15000 / sleep_quantum + 500 / sleep_quantum)
unfolding new_hitman
stop-settles_example = stop-settles (λ time. time == 1) 7 15000 500 (λ time. ltb time 3) new_hitman
