-- ===== src/Kkm/Export.antt =====
-- src/library/kkm/impex.cpp and impex.h: the results of calls are written to JSON. Several results go
-- to one object, which says whether all have succeeded. What the libraries convert is a record.
pub mod Status
pub mod Fiscal
pub mod Collecting
use Prim.Native.Nat.{bit_and}
use kkm_https_adapter.Base.{
  ℕ, Bool, true, false, ◌&&◌, ◌||◌, not, Option, none, some, Bytes, utf8, equal, is_nil, ◌==◌,
  if◌then◌else◌, Double,
}
use kkm_https_adapter.Http.JsonValue.{
  Json, null, boolean, string, array, object, nil, Fields, end, at, put, is_boolean, is_string,
}
use kkm_https_adapter.Kkm.Driver.{WideText, wide, DateTime}
use kkm_https_adapter.Kkm.Initial.{DriverNumbers, Flag}
use kkm_https_adapter.Kkm.Results.{Result}

-- The JSON library's numbers for an unsigned one and for a double, `Text::convert`, and `DateTime::cast`.
pub record Exporter : Type 0 where
  pub of_unsigned : ℕ → ℕ
  pub of_double : Double → ℕ
  pub narrow : WideText → Bytes
  pub date_text : DateTime → Bytes
  pub numbers : DriverNumbers

-- `static_cast<bool>(value & flag)`.
abbrev pub has_bit : Exporter → ℕ → Flag → Bool
has_bit x value flag = not (bit_and value (x.numbers.flag flag) == 0)

abbrev pub success_key : Bytes
success_key = utf8 "!success"

abbrev pub message_key : Bytes
message_key = utf8 "!message"

-- `get<bool>()`, `empty()` and the comparison with a text, on a value that is there.
abbrev pub truth : Option Json → Bool
truth (some (boolean b)) = b
truth _ = false

abbrev is_empty : Option Json → Bool
is_empty (some null) = true
is_empty (some (array nil)) = true
is_empty (some (object end)) = true
is_empty _ = false

abbrev pub is_text : Bytes → Option Json → Bool
is_text t (some (string s)) = equal s t
is_text t _ = false

abbrev overrides : Bool → Option Json → Bool
overrides success old = not (is_boolean old) || (truth old && not success)

abbrev replaces : Bool → Option Json → Bool
replaces overriding old =
    overriding || not (is_string old) || is_empty old || is_text (utf8 "OK") old

abbrev put_if : Bool → Bytes → Json → Fields → Fields
put_if b key json fs = if b then put key json fs else fs

module _ {A : Type 0} (x : Exporter) where
  -- `assign` of a `Result`: the outcome of the object, and the object.
  unfoldable pub assign_result : Fields → Result A → Bool × Fields
  unfolding at put equal
  assign_result json r =
      let overriding = overrides r.success (at success_key json) in
      let told = put_if overriding success_key (boolean r.success) json in
      let full =
        put_if (replaces overriding (at message_key told)) message_key (string (x.narrow r.message))
          told in
      (truth (at success_key full), full)

  -- The overloads of `assign` for a result with more in it: it is written when the object's outcome
  -- and the result are a success.
  unfoldable pub assign_with : Bytes → (A → Json) → Fields → Result A → Bool × Fields
  unfolding assign_result put
  assign_with key fields json r =
      let base = assign_result json r in
      if base.0 && r.success then (true, put key (fields r.rest) base.1) else (false, base.1)

abbrev object_of : Option Fields → Fields
object_of none = end
object_of (some json) = json

-- `operator <<` to an optional object: of a plain result, which is told only when it is a failure
-- or has a message of its own, and of any other one.
unfoldable pub write_plain : Exporter → Option Fields → Result Unit → Option Fields
unfolding assign_result equal
write_plain x json r =
    if not r.success || not (is_nil r.message || equal r.message (wide "OK"))
    then some (assign_result x (object_of json) r).1
    else json

unfoldable pub write :
    {A : Type 0} → (Fields → Result A → Bool × Fields) → Option Fields → Result A → Option Fields
write assign json r = some (assign (object_of json) r).1
