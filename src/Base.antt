-- ===== src/Base.antt =====
-- Names that the other modules share: the libraries', passed on, and those of the modules below.
mod Tests
mod Lists
mod Texts
mod Results
mod Doubles
pub use Tests.*
pub use Results.*
pub use Doubles.{Double, less_total}
unfoldable pub use Doubles.{is_nan, rank, less}
pub use Lists.*
pub use Texts.{Bytes, utf8, wide, equal_iff, equal_refl, equal_apart}
unfoldable pub use Texts.{equal, among}
pub use Prim.Native.Nat.{ℕ, zero, suc, ◌+◌, ◌-◌, ◌*◌, ◌/◌, ◌%◌, ◌^◌, ◌≤◌, ◌<◌}
pub use mathlib.Core.Path.{◌≡◌, refl, sym, ap, ◌∙◌}
pub use mathlib.Core.Logic.{◌≢◌, ◌↔◌, ◌⊎◌, inl, inr}
pub use mathlib.Core.Bool.{Bool, true, false, not, ◌&&◌, ◌||◌}
pub use mathlib.Core.Option.{Option, none, some}
pub use mathlib.Core.List.{List, [], ◌∷◌, ◌++◌, map, append-nil, append_assoc}
pub use native.Mathlib.Omega.{arith}
