-- ===== src/Kkm/Export/Collecting/FirstFailure.antt =====
-- The message that a collected object tells: that of the first failure.
use kkm_https_adapter.Base.{
  List, [], ◌∷◌, true, false, ◌&&◌, Option, some, none, Bytes, utf8, equal, ◌≡◌, refl, ◌∙◌,
  Bool-cases, inl, inr, All,
}
use mathlib.Core.Path.{ap₂, subst}
use kkm_https_adapter.Http.JsonValue.{boolean, string, Fields, at}
use kkm_https_adapter.Kkm.Driver.{WideText}
use kkm_https_adapter.Kkm.Results.{Result}
use kkm_https_adapter.Kkm.Method.{Device, Flow, going, left, threw}
use kkm_https_adapter.Kkm.Initial.{new_result}
use kkm_https_adapter.Kkm.Export.{Exporter, success_key, message_key, object_of, assign_with, write}
use kkm_https_adapter.Kkm.Export.Collecting.{
  Query, called, call_method, and_then, collect_data, written,
}
use kkm_https_adapter.Kkm.Export.Collecting.Laws.{
  outcome, Reports, assign_result_fails, assign_result_keeps,
}
use kkm_https_adapter.Kkm.Export.Collecting.Whole.{
  IsApart, first_failure, of_flow, on_result, to_data, outcome-write, object_outcome,
}

module _ (x : Exporter) where
  abbrev Shows : Option Fields → Bytes → Type 0
  Shows none m = ⊥
  Shows (some json) m = Reports json m

  write_fails :
      (q : Query) (json : Option Fields) (r : Result q.Rest)
      → IsApart q
      → outcome json ≡ true
      → r.success ≡ false
      → Shows (write (assign_with x q.key q.fields) json r) (x.narrow r.message)
  unfolding write
  write_fails q json r a h k =
      to_data x q a (object_of json) r (x.narrow r.message)
        (assign_result_fails x (object_of json) r (object_outcome json ∙ h) k)

  write_keeps :
      (q : Query) (json : Option Fields) (r : Result q.Rest) (m : Bytes)
      → IsApart q
      → equal m (utf8 "OK") ≡ false
      → Shows json m
      → Shows (write (assign_with x q.key q.fields) json r) m
  unfolding write
  write_keeps q none r m a h k = elim k [ ]
  write_keeps q (some json) r m a h k = to_data x q a json r m (assign_result_keeps x json r m h k)

  keeps_step :
      (q : Query) (qs : List Query) (json after : Option Fields) (e : Device) (f : Flow q.Rest)
      (m : Bytes)
      → IsApart q
      → equal m (utf8 "OK") ≡ false
      → Shows json m
      → ((o : Option Fields) (d : Device)
          → Shows o m
          → collect_data x qs o d ≡ called after e
          → Shows after m)
      → and_then (written (write (assign_with x q.key q.fields) json) f) (collect_data x qs)
        ≡ called after e
      → Shows after m
  keeps_step q qs json after e (going r d) m a h k rest c =
      rest _ d (write_keeps q json r m a h k) c
  keeps_step q qs json after e (left r d) m a h k rest c = rest _ d (write_keeps q json r m a h k) c
  keeps_step q qs json after e (threw t d) m a h k rest c = cc

  collect_data_keeps :
      (qs : List Query) (json after : Option Fields) (d e : Device) (m : Bytes)
      → All IsApart qs
      → equal m (utf8 "OK") ≡ false
      → Shows json m
      → collect_data x qs json d ≡ called after e
      → Shows after m
  unfolding collect_data call_method
  collect_data_keeps [] json after d e m a h k c =
      let same : json ≡ after = cc in subst (λ o. Shows o m) same k
  collect_data_keeps (q ∷ qs) json after d e m (a, rest) h k c =
      keeps_step q qs json after e (q.method (new_result q.initial) d) m a h k
        (λ o d' s. collect_data_keeps qs o after d' e m rest h s) c

  first_result :
      (q : Query) (qs : List Query) (json after : Option Fields) (d e : Device) (r : Result q.Rest)
      (m : WideText)
      → All IsApart (q ∷ qs)
      → outcome json ≡ true
      → equal (x.narrow m) (utf8 "OK") ≡ false
      → ((o : Option Fields)
          → outcome o ≡ true
          → first_failure qs d ≡ some m
          → collect_data x qs o d ≡ called after e
          → Shows after (x.narrow m))
      → on_result (first_failure qs d) r ≡ some m
      → collect_data x qs (write (assign_with x q.key q.fields) json r) d ≡ called after e
      → Shows after (x.narrow m)
  first_result q qs json after d e r m (a, rest) t h later f c = elim (Bool-cases r.success) [
    | inl s ↦
        later (write (assign_with x q.key q.fields) json r)
          (outcome-write x q a json r ∙ ap₂ ◌&&◌ (object_outcome json ∙ t) s) (rw s at f) c
    | inr s ↦
        let told : some r.message ≡ some m = rw s at f in
        let same : r.message ≡ m = cc in
        collect_data_keeps qs _ after d e (x.narrow m) rest h
          (subst (λ n. Shows (write (assign_with x q.key q.fields) json r) (x.narrow n)) same
            (write_fails q json r a t s))
          c
  ]

  first_step :
      (q : Query) (qs : List Query) (json after : Option Fields) (e : Device) (f : Flow q.Rest)
      (m : WideText)
      → All IsApart (q ∷ qs)
      → outcome json ≡ true
      → equal (x.narrow m) (utf8 "OK") ≡ false
      → ((o : Option Fields) (d : Device)
          → outcome o ≡ true
          → first_failure qs d ≡ some m
          → collect_data x qs o d ≡ called after e
          → Shows after (x.narrow m))
      → of_flow (first_failure qs) f ≡ some m
      → and_then (written (write (assign_with x q.key q.fields) json) f) (collect_data x qs)
        ≡ called after e
      → Shows after (x.narrow m)
  first_step q qs json after e (going r d) m a t h later f c =
      first_result q qs json after d e r m a t h (λ o. later o d) f c
  first_step q qs json after e (left r d) m a t h later f c =
      first_result q qs json after d e r m a t h (λ o. later o d) f c
  first_step q qs json after e (threw n d) m a t h later f c = cc

  collect_data_first :
      (qs : List Query) (json after : Option Fields) (d e : Device) (m : WideText)
      → All IsApart qs
      → outcome json ≡ true
      → equal (x.narrow m) (utf8 "OK") ≡ false
      → first_failure qs d ≡ some m
      → collect_data x qs json d ≡ called after e
      → Shows after (x.narrow m)
  unfolding collect_data first_failure call_method
  collect_data_first [] json after d e m a t h f c = cc
  collect_data_first (q ∷ qs) json after d e m a t h f c =
      first_step q qs json after e (q.method (new_result q.initial) d) m a t h
        (λ o d' u g. collect_data_first qs o after d' e m a.1 u h g) f c

  -- Calls are collected into a new object and none of them throws: when the result of one is a
  -- failure, the object tells a failure, with the message of the first. The message must not be "OK".
  pub collect_data-first_failure :
      (qs : List Query) (after : Fields) (d e : Device) (m : WideText)
      → All IsApart qs
      → equal (x.narrow m) (utf8 "OK") ≡ false
      → first_failure qs d ≡ some m
      → collect_data x qs none d ≡ called (some after) e
      → (at success_key after ≡ some (boolean false))
        × (at message_key after ≡ some (string (x.narrow m)))
  collect_data-first_failure qs after d e m a h f c =
      let shown = collect_data_first qs none (some after) d e m a refl h f c in
      (shown.success, shown.message)
