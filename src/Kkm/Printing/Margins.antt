-- ===== src/Kkm/Printing/Margins.antt =====
-- What `doubleClamp` guarantees.
use kkm_https_adapter.Base.{◌≡◌, false, arith}
use kkm_https_adapter.Kkm.Details.{ℤ, pos, negsuc}
use kkm_https_adapter.Kkm.Printing.{less, double_clamp}

-- Within the bounds.
abbrev pub IsBetween : ℤ → ℤ → ℤ → Type 0
IsBetween lo hi a = (less a lo ≡ false) × (less hi a ≡ false)

less_irrefl : (a : ℤ) → less a a ≡ false
less_irrefl (pos a) = ground arith
less_irrefl (negsuc a) = ground arith

-- Whatever the two values are, both are within the bounds afterwards, if the bounds are in order.
pub double_clamp-IsBetween :
    (a b lo hi : ℤ)
    → less hi lo ≡ false
    → IsBetween lo hi (double_clamp a b lo hi).0 × IsBetween lo hi (double_clamp a b lo hi).1
unfolding double_clamp
double_clamp-IsBetween a b lo hi h = ground (arith, less_irrefl lo, less_irrefl hi)
