-- ===== src/Kkm/Export/Collecting/Whole.antt =====
-- What the object that is collected from several calls tells.
use kkm_https_adapter.Base.{
  List, [], ◌∷◌, Bool, true, false, ◌&&◌, Option, some, none, Bytes, equal, ◌≡◌, refl, sym, ap, ◌∙◌,
  All, if◌then◌else◌, arith,
}
use kkm_https_adapter.Http.JsonValue.{Json, boolean, Fields, at, put}
use kkm_https_adapter.Kkm.Driver.{WideText}
use kkm_https_adapter.Kkm.Results.{Result}
use kkm_https_adapter.Kkm.Method.{Device, Flow, going, left, threw}
use kkm_https_adapter.Kkm.Initial.{new_result}
use kkm_https_adapter.Kkm.Export.{
  Exporter, success_key, message_key, object_of, assign_result, assign_with, write,
}
use kkm_https_adapter.Kkm.Export.Collecting.{
  Query, called, call_method, and_then, collect_data, written,
}
use kkm_https_adapter.Kkm.Export.Collecting.Laws.{
  told_by, outcome, put_other, Reports, assign_result_success,
}

-- The data of a query have a key of their own.
pub record IsApart (q : Query) : Type 0 where
  pub success : equal q.key success_key ≡ false
  pub message : equal q.key message_key ≡ false

-- The message of the first of the calls whose result is a failure.
abbrev pub on_result : {A : Type 0} → Option WideText → Result A → Option WideText
on_result later r = if r.success then later else some r.message

abbrev pub of_flow : {A : Type 0} → (Device → Option WideText) → Flow A → Option WideText
of_flow later (going r d) = on_result (later d) r
of_flow later (left r d) = on_result (later d) r
of_flow later (threw m d) = none

unfoldable pub first_failure : List Query → Device → Option WideText
first_failure [] d = none
first_failure (q ∷ qs) d = of_flow (first_failure qs) (q.method (new_result q.initial) d)

abbrev pub is_none : Option WideText → Bool
is_none none = true
is_none (some m) = false

data_apart :
    (b : Bool) (k key : Bytes) (v : Json) (fs : Fields)
    → equal key k ≡ false
    → at k (if◌then◌else◌ {A = Bool × Fields} b (true, put key v fs) (false, fs)).1 ≡ at k fs
data_apart true k key v fs h = put_other k key v fs h
data_apart false k key v fs h = refl

module _ (x : Exporter) (q : Query) (a : IsApart q) (json : Fields) (r : Result q.Rest) where
  pub assign_with_success :
      at success_key (assign_with x q.key q.fields json r).1
      ≡ some (boolean (told_by (at success_key json) && r.success))
  unfolding assign_with
  assign_with_success =
      data_apart ((assign_result x json r).0 && r.success) success_key q.key (q.fields r.rest)
        (assign_result x json r).1 a.success
      ∙ assign_result_success x json r

  pub to_data :
      (m : Bytes)
      → Reports (assign_result x json r).1 m
      → Reports (assign_with x q.key q.fields json r).1 m
  unfolding assign_with
  to_data m k = record {
    success =
        data_apart ((assign_result x json r).0 && r.success) success_key q.key (q.fields r.rest)
          (assign_result x json r).1 a.success
        ∙ k.success;
    message =
        data_apart ((assign_result x json r).0 && r.success) message_key q.key (q.fields r.rest)
          (assign_result x json r).1 a.message
        ∙ k.message;
  }

module _ (x : Exporter) (q : Query) (a : IsApart q) (o : Option Fields) (r : Result q.Rest) where
  pub outcome-write :
      outcome (write (assign_with x q.key q.fields) o r)
      ≡ (told_by (at success_key (object_of o)) && r.success)
  unfolding write
  outcome-write = ap told_by (assign_with_success x q a (object_of o) r)

pub object_outcome : (o : Option Fields) → told_by (at success_key (object_of o)) ≡ outcome o
unfolding at
object_outcome none = refl
object_outcome (some json) = refl

and_true : (b : Bool) → (b && true) ≡ b
and_true true = refl
and_true false = refl

and_step :
    {A : Type 0} (b : Bool) (r : Result A) (later : Option WideText)
    → (b && r.success && is_none later) ≡ (b && is_none (on_result later r))
and_step b r later = ground arith

module _ (x : Exporter) where
  collect_result :
      (q : Query) (qs : List Query) (json after : Option Fields) (e : Device) (r : Result q.Rest)
      (d : Device)
      → IsApart q
      → outcome after
        ≡ (outcome (write (assign_with x q.key q.fields) json r) && is_none (first_failure qs d))
      → outcome after ≡ (outcome json && is_none (on_result (first_failure qs d) r))
  collect_result q qs json after e r d a h =
      h
      ∙ ap (λ b. b && is_none (first_failure qs d))
          (outcome-write x q a json r ∙ ap (λ b. b && r.success) (object_outcome json))
      ∙ and_step (outcome json) r (first_failure qs d)

  collect_step :
      (q : Query) (qs : List Query) (json after : Option Fields) (e : Device) (f : Flow q.Rest)
      → IsApart q
      → ((o : Option Fields) (d : Device)
          → collect_data x qs o d ≡ called after e
          → outcome after ≡ (outcome o && is_none (first_failure qs d)))
      → and_then (written (write (assign_with x q.key q.fields) json) f) (collect_data x qs)
        ≡ called after e
      → outcome after ≡ (outcome json && is_none (of_flow (first_failure qs) f))
  collect_step q qs json after e (going r d) a rest h =
      collect_result q qs json after e r d a (rest _ d h)
  collect_step q qs json after e (left r d) a rest h =
      collect_result q qs json after e r d a (rest _ d h)
  collect_step q qs json after e (threw m d) a rest h = cc

  -- Whatever calls are collected: the object tells a success exactly when it told none but successes
  -- before and every call's result is one.
  pub collect_data-outcome :
      (qs : List Query) (json after : Option Fields) (d e : Device)
      → All IsApart qs
      → collect_data x qs json d ≡ called after e
      → outcome after ≡ (outcome json && is_none (first_failure qs d))
  unfolding collect_data first_failure call_method
  collect_data-outcome [] json after d e a h =
      let same : json ≡ after = cc in ap outcome (sym same) ∙ sym (and_true (outcome json))
  collect_data-outcome (q ∷ qs) json after d e (a, rest) h =
      collect_step q qs json after e (q.method (new_result q.initial) d) a
        (λ o d'. collect_data-outcome qs o after d' e rest) h
