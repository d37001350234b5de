-- ===== src/Base/Doubles.antt =====
-- The order of the machine's doubles, each given by its bit pattern of 64 bits.
use Prim.Native.Nat.{ℕ, ◌+◌, ◌-◌, ◌%◌, ◌≤◌}
use mathlib.Core.Path.{◌≡◌, refl}
use mathlib.Core.Logic.{◌⊎◌, inl, inr}
use mathlib.Core.Bool.{Bool, true, ◌&&◌, not}
use native.Mathlib.Omega.{arith}
use kkm_https_adapter.Base.Tests.{ltb, if◌then◌else◌, Bool-cases}

abbrev pub Double : Type 0
Double = ℕ

unfoldable pub is_nan : Double → Bool
is_nan x = ltb 0x7ff0000000000000 (x % 0x8000000000000000)

-- A number that grows with the value of a double; both zeros have the same.
unfoldable pub rank : Double → ℕ
rank x =
    if ltb x 0x8000000000000000
    then 0x8000000000000000 + x
    else 0x8000000000000000 - (x - 0x8000000000000000)

-- `operator <`.
unfoldable pub less : Double → Double → Bool
unfolding is_nan rank
less x y = not (is_nan x) && not (is_nan y) && ltb (rank x) (rank y)

-- A value that is neither below nor above another has its rank, or one of them is no number.
pub less_total :
    (x y : Double)
    → (is_nan x ≡ true) ⊎ ((is_nan y ≡ true) ⊎ ((less x y ≡ true) ⊎ (rank y ≤ rank x)))
unfolding less
less_total x y = elim (Bool-cases (is_nan x)) [
  | inl h ↦ inl h
  | inr h ↦ elim (Bool-cases (is_nan y)) [
    | inl k ↦ inr (inl k)
    | inr k ↦ elim (Bool-cases (ltb (rank x) (rank y))) [
      | inl l ↦ inr (inr (inl (rw (h, k, l) refl)))
      | inr l ↦ inr (inr (inr (ground arith)))
    ]
  ]
]
