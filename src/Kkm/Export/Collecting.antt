-- ===== src/Kkm/Export/Collecting.antt =====
-- `callMethod` and `collectDataFromMethods` of src/library/kkm/callhelpers.h: methods are called one after
-- the other on one device, each on a new result, which is written to one object.
pub mod Laws
pub mod Whole
pub mod FirstFailure
pub mod Tests
use kkm_https_adapter.Base.{List, [], ◌∷◌, Bool, Option, Bytes}
use kkm_https_adapter.Http.JsonValue.{Json, Fields}
use kkm_https_adapter.Kkm.Driver.{WideText}
use kkm_https_adapter.Kkm.Results.{Result}
use kkm_https_adapter.Kkm.Method.{Device, Flow, going, left, threw, Method}
use kkm_https_adapter.Kkm.Initial.{new_result}
use kkm_https_adapter.Kkm.Export.{Exporter, assign_with, write, write_plain}

-- A method that is called for its result: the result as it is made, and its export.
pub record Query : Type 1 where
  pub Rest : Type 0
  pub initial : Rest
  pub key : Bytes
  pub fields : Rest → Json
  pub method : Method Rest

-- How a call ends: with the object and the device, or with an exception.
pub data Called : Type 0 where
  called : Option Fields → Device → Called
  thrown : WideText → Device → Called

abbrev pub Call : Type 0
Call = Option Fields → Device → Called

abbrev pub written : {A : Type 0} → (Result A → Option Fields) → Flow A → Called
written f (going r d) = called (f r) d
written f (left r d) = called (f r) d
written f (threw m d) = thrown m d

unfoldable pub call_method : Exporter → Query → Call
unfolding assign_with write
call_method x q json d =
    written (write (assign_with x q.key q.fields) json) (q.method (new_result q.initial) d)

-- The same for a method with a plain result.
unfoldable pub call_plain : Exporter → Method Unit → Call
unfolding write_plain
call_plain x method json d = written (write_plain x json) (method (new_result tt) d)

abbrev pub and_then : Called → Call → Called
and_then (called json d) c = c json d
and_then (thrown m d) c = thrown m d

unfoldable pub collect_data : Exporter → List Query → Call
unfolding call_method
collect_data x [] json d = called json d
collect_data x (q ∷ qs) json d = and_then (call_method x q json d) (collect_data x qs)
