-- ===== src/Json/Naming.antt =====
-- Which exceptions a reading ends with.
use kkm_https_adapter.Base.{false, [], ◌∷◌, List, Bytes, is_nil, ◌≡◌, refl, ok, err}
use mathlib.Core.Path.{subst}
use kkm_https_adapter.Text.{join_text}
use kkm_https_adapter.Http.JsonValue.{Json, null, boolean, number, string, array, object}
use kkm_https_adapter.Json.{
  Failure, data_error, failure, Read, ◌>>=◌, Conversions, variable, marked, Handler, plain,
  filtered, mapped, key_path, handle_key, key_handled, key_value, key_filtered, key_mapped,
}

-- A data error with the name of a variable.
abbrev pub IsNamed : Failure → Type 0
IsNamed (data_error m name) = is_nil name ≡ false
IsNamed (failure m) = Unit

-- A reading that throws no data error without a name.
pub record Names {A : Type 0} (r : Read A) : Type 0 where
  pub throws : (e : Failure) → r ≡ err e → IsNamed e

-- The conversion of the JSON library's keys does not lose them.
pub record IsFaithful (c : Conversions) : Type 0 where
  pub keeps : (key : Bytes) → is_nil key ≡ false → is_nil (c.widen key) ≡ false

variable-IsNamed : (path : Bytes) (e : Failure) → is_nil path ≡ false → IsNamed (variable path e)
unfolding variable
variable-IsNamed path (data_error m []) h = h
variable-IsNamed path (data_error m (c ∷ v)) h = refl
variable-IsNamed path (failure m) h = tt

module _ {A : Type 0} where
  pub Names-ok : (a : A) → Names (ok a)
  Names-ok a = record { throws = λ e h. cc }

  pub Names-err : (e : Failure) → IsNamed e → Names {A = A} (err e)
  Names-err e n = record { throws = λ f h. let same : e ≡ f = cc in subst IsNamed same n }

  pub Names-bind :
      {B : Type 0} (r : Read A) (k : A → Read B)
      → Names r
      → ((a : A) → Names (k a))
      → Names (r >>= k)
  unfolding ◌>>=◌
  Names-bind (err e) k h g = record {
    throws = λ f i. let same : e ≡ f = cc in subst IsNamed same (h.throws e refl);
  }
  Names-bind (ok a) k h g = g a

  marked-Names : (path : Bytes) (r : Read A) → is_nil path ≡ false → Names (marked path r)
  unfolding marked
  marked-Names path (err e) h = Names-err (variable path e) (variable-IsNamed path e h)
  marked-Names path (ok a) h = Names-ok a

key_path_nonempty :
    (c : Conversions) (base key : Bytes)
    → IsFaithful c
    → is_nil key ≡ false
    → is_nil (key_path c base key) ≡ false
unfolding key_path join_text
key_path_nonempty c [] key f h = f.keeps key h
key_path_nonempty c (b ∷ base) key f h = refl

module _ {A : Type 0} (c : Conversions) (key base : Bytes) (json : Json) (a : A) where
  -- Whatever the handler throws, a data error of the reading of a property has a name, if the property's
  -- key is not empty and is not lost in its conversion.
  pub handle_key-IsNamed :
      (handler : Handler A) (e : Failure)
      → IsFaithful c
      → is_nil key ≡ false
      → handle_key c handler key base json a ≡ err e
      → IsNamed e
  unfolding handle_key
  handle_key-IsNamed handler e f h = (names json).throws e
    where
      long : is_nil (key_path c base key) ≡ false
      long = key_path_nonempty c base key f h

      names : (j : Json) → Names (handle_key c handler key base j a)
      names null = Names-ok (false, a)
      names (boolean b) = Names-err _ long
      names (number n) = Names-err _ long
      names (string t) = Names-err _ long
      names (array js) = Names-err _ long
      names (object fs) = marked-Names _ _ long

  module _ (f : IsFaithful c) (h : is_nil key ≡ false) where
    pub key_handled-Names : (handler : Handler A) → Names (key_handled c handler key base json a)
    unfolding key_handled
    key_handled-Names handler = record { throws = λ e. handle_key-IsNamed handler e f h }

    pub key_value-Names : (cast : Json → Read A) → Names (key_value c cast key base json a)
    unfolding key_value
    key_value-Names cast = record { throws = λ e. handle_key-IsNamed (plain cast) e f h }

    pub key_filtered-Names :
        (cast : Json → Read A) (filter : A → Read A)
        → Names (key_filtered c cast filter key base json a)
    unfolding key_filtered
    key_filtered-Names cast filter = record {
      throws = λ e. handle_key-IsNamed (filtered cast filter) e f h;
    }

    pub key_mapped-Names :
        (cast : Json → Read Bytes) (cast_map : List (Bytes × A))
        → Names (key_mapped c cast cast_map key base json a)
    unfolding key_mapped
    key_mapped-Names cast cast_map = record {
      throws = λ e. handle_key-IsNamed (mapped cast cast_map) e f h;
    }
