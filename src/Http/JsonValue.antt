-- ===== src/Http/JsonValue.antt =====
-- The values of the JSON library, as src/ uses them: `contains`, `operator []`, `is_…` and `empty`. An
-- object is a map from keys to values; `dump` and `parse` are that library's, and are parameters
-- where they are used.
pub mod Laws
use kkm_https_adapter.Base.{ℕ, Bool, true, false, Option, some, none, Bytes, equal, if◌then◌else◌}

mutual
  pub data Json : Type 0 where
    null : Json
    boolean : Bool → Json
    number : ℕ → Json
    string : Bytes → Json
    array : Items → Json
    object : Fields → Json

  pub data Items : Type 0 where
    nil : Items
    cons : Json → Items → Items

  pub data Fields : Type 0 where
    end : Fields
    field : Bytes → Json → Fields → Fields

unfoldable pub at : Bytes → Fields → Option Json
at k end = none
at k (field j v fs) = if equal j k then some v else at k fs

unfoldable pub put : Bytes → Json → Fields → Fields
put k v end = field k v end
put k v (field j w fs) = if equal j k then field j v fs else field j w (put k v fs)

abbrev pub is_boolean : Option Json → Bool
is_boolean (some (boolean b)) = true
is_boolean _ = false

abbrev pub is_string : Option Json → Bool
is_string (some (string s)) = true
is_string _ = false

abbrev pub is_object : Json → Bool
is_object (object fs) = true
is_object _ = false
