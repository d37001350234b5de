-- ===== src/Http/Maps.antt =====
-- `std::unordered_map<std::string, std::string>` as src/kkmha uses it: `operator []` on the left of an
-- assignment, and `find`.
use kkm_https_adapter.Base.{
  List, [], ◌∷◌, ◌≡◌, refl, arith, Option, some, none, Bytes, equal, equal_iff, if◌then◌else◌,
}

abbrev pub Map : Type 0 → Type 0
Map A = List (Bytes × A)

abbrev pub Header : Type 0
Header = Map Bytes

module _ {A : Type 0} where
  unfoldable pub find : Bytes → Map A → Option A
  find k [] = none
  find k ((j, v) ∷ m) = if equal j k then some v else find k m

  unfoldable pub assign : Bytes → A → Map A → Map A
  assign k v [] = (k, v) ∷ []
  assign k v ((j, w) ∷ m) = if equal j k then (j, v) ∷ m else (j, w) ∷ assign k v m

  pub find-assign :
      (k j : Bytes) (v : A) (m : Map A)
      → find j (assign k v m) ≡ (if equal k j then some v else find j m)
  unfolding find assign
  find-assign k j v [] = refl
  find-assign k j v ((i, w) ∷ m) =
      ground (arith, equal_iff k j, equal_iff i k, equal_iff i j, find-assign k j v m)
