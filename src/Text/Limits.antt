-- ===== src/Text/Limits.antt =====
-- The filters of doubles of src/library/lib/numeric.h. A value that is no number passes them: it is
-- neither below a limit nor above one.
use kkm_https_adapter.Base.{
  true, false, ◌||◌, ◌≡◌, ◌≤◌, ◌⊎◌, arith, if◌then◌else◌, Double, is_nan, less, rank, Result, ok,
  err, DataError, range_error, ◌↔◌,
}

unfoldable pub min : Double → Double → Result DataError Double
unfolding less
min lo value = if less value lo then err range_error else ok value

unfoldable pub max : Double → Double → Result DataError Double
unfolding less
max hi value = if less hi value then err range_error else ok value

unfoldable pub between : Double → Double → Double → Result DataError Double
unfolding less
between lo hi value = if less value lo || less hi value then err range_error else ok value

-- A value within the limits, or no number.
abbrev pub IsWithin : Double → Double → Double → Type 0
IsWithin lo hi v = (is_nan v ≡ true) ⊎ ((rank lo ≤ rank v) × (rank v ≤ rank hi))

pub between-IsWithin :
    (lo hi v w : Double)
    → is_nan lo ≡ false
    → is_nan hi ≡ false
    → (between lo hi v ≡ ok w) ↔ ((w ≡ v) × IsWithin lo hi v)
unfolding between less
between-IsWithin lo hi v w h k = ground arith

pub IsWithin-of_not_outside :
    (lo hi v : Double)
    → is_nan lo ≡ false
    → is_nan hi ≡ false
    → (less v lo || less hi v) ≡ false
    → IsWithin lo hi v
unfolding less
IsWithin-of_not_outside lo hi v h k e = ground arith
