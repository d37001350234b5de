-- ===== src/Kkm/Export/Collecting/Laws.antt =====
-- What the collected object says of the calls: whether all have succeeded, and which failed first.
use kkm_https_adapter.Base.{
  Bool, true, false, ◌&&◌, Option, some, none, Bytes, utf8, equal, equal_refl, ◌≡◌, refl, ap, ◌∙◌,
}
use mathlib.Core.Path.{ap₂}
use kkm_https_adapter.Http.JsonValue.{
  Json, null, boolean, number, string, array, object, Fields, at, put, is_boolean,
}
use kkm_https_adapter.Http.JsonValue.Laws.{at-put}
use kkm_https_adapter.Kkm.Results.{Result}
use kkm_https_adapter.Kkm.Export.{
  Exporter, success_key, message_key, truth, overrides, replaces, put_if, assign_result,
}

-- The outcome that an object tells; without one, there is no failure.
abbrev pub told_by : Option Json → Bool
told_by (some (boolean b)) = b
told_by _ = true

abbrev pub outcome : Option Fields → Bool
outcome none = true
outcome (some json) = told_by (at success_key json)

keys_apart : (equal message_key success_key ≡ false) × (equal success_key message_key ≡ false)
unfolding equal
keys_apart = (refl, refl)

told-truth : (o : Option Json) → is_boolean o ≡ true → told_by o ≡ truth o
told-truth (some (boolean b)) h = refl
told-truth (some null) h = cc
told-truth (some (number n)) h = cc
told-truth (some (string s)) h = cc
told-truth (some (array js)) h = cc
told-truth (some (object fs)) h = cc
told-truth none h = cc

-- The outcome after the first statement of `assign`.
told_lem :
    (success : Bool) (json : Fields) (o : Option Json)
    → at success_key json ≡ o
    → at success_key (put_if (overrides success o) success_key (boolean success) json)
      ≡ some (boolean (told_by o && success))
unfolding equal
told_lem success json none h = rw (at-put success_key success_key (boolean success) json) refl
told_lem true json (some (boolean true)) h = h
told_lem false json (some (boolean true)) h =
    rw (at-put success_key success_key (boolean false) json) refl
told_lem success json (some (boolean false)) h = h
told_lem success json (some null) h =
    rw (at-put success_key success_key (boolean success) json) refl
told_lem success json (some (number n)) h =
    rw (at-put success_key success_key (boolean success) json) refl
told_lem success json (some (string s)) h =
    rw (at-put success_key success_key (boolean success) json) refl
told_lem success json (some (array js)) h =
    rw (at-put success_key success_key (boolean success) json) refl
told_lem success json (some (object fs)) h =
    rw (at-put success_key success_key (boolean success) json) refl

put_if_other :
    (b : Bool) (k l : Bytes) (v : Json) (fs : Fields)
    → equal l k ≡ false
    → at k (put_if b l v fs) ≡ at k fs
put_if_other true k l v fs h = rw (at-put l k v fs) (rw h refl)
put_if_other false k l v fs h = refl

pub put_other :
    (k l : Bytes) (v : Json) (fs : Fields) → equal l k ≡ false → at k (put l v fs) ≡ at k fs
put_other k l v fs h = put_if_other true k l v fs h

-- A failure that an object tells, with its message.
pub record Reports (json : Fields) (m : Bytes) : Type 0 where
  pub success : at success_key json ≡ some (boolean false)
  pub message : at message_key json ≡ some (string m)

put_if-true :
    (b : Bool) (k : Bytes) (v : Json) (fs : Fields) → b ≡ true → at k (put_if b k v fs) ≡ some v
put_if-true true k v fs h = rw (at-put k k v fs) (rw (equal_refl k) refl)
put_if-true false k v fs h = cc

replaces_of_true : (b : Bool) (o : Option Json) → b ≡ true → replaces b o ≡ true
replaces_of_true true o h = refl
replaces_of_true false o h = cc

-- A failure overrides whatever is not a failure.
overrides_failure :
    (success : Bool) (o : Option Json)
    → told_by o ≡ true
    → success ≡ false
    → overrides success o ≡ true
overrides_failure true o h k = cc
overrides_failure false (some (boolean true)) h k = refl
overrides_failure false (some (boolean false)) h k = cc
overrides_failure false none h k = refl
overrides_failure false (some null) h k = refl
overrides_failure false (some (number n)) h k = refl
overrides_failure false (some (string s)) h k = refl
overrides_failure false (some (array js)) h k = refl
overrides_failure false (some (object fs)) h k = refl

module _ {A : Type 0} (x : Exporter) (json : Fields) (r : Result A) where
  abbrev overriding : Bool
  overriding = overrides r.success (at success_key json)

  abbrev told : Fields
  told = put_if overriding success_key (boolean r.success) json

  pub assign_result_success :
      at success_key (assign_result x json r).1
      ≡ some (boolean (told_by (at success_key json) && r.success))
  unfolding assign_result
  assign_result_success =
      put_if_other (replaces overriding (at message_key told)) success_key message_key
        (string (x.narrow r.message)) told keys_apart.0
      ∙ told_lem r.success json (at success_key json) refl

  -- The first failure that is written is told, whatever message there was.
  pub assign_result_fails :
      told_by (at success_key json) ≡ true
      → r.success ≡ false
      → Reports (assign_result x json r).1 (x.narrow r.message)
  unfolding assign_result
  assign_result_fails h k = record {
    success = assign_result_success ∙ ap (λ b. some (boolean b)) (ap₂ ◌&&◌ h k);
    message =
        put_if-true (replaces overriding (at message_key told)) message_key
          (string (x.narrow r.message)) told
          (replaces_of_true overriding (at message_key told)
            (overrides_failure r.success (at success_key json) h k));
  }

  -- A failure that is told already stays.
  pub assign_result_keeps :
      (m : Bytes)
      → equal m (utf8 "OK") ≡ false
      → Reports json m
      → Reports (assign_result x json r).1 m
  unfolding assign_result
  assign_result_keeps m h k = record {
    success = assign_result_success ∙ ap (λ o. some (boolean (told_by o && r.success))) k.success;
    message =
        let still : overriding ≡ false = ap (overrides r.success) k.success in
        let same : told ≡ json = ap (λ b. put_if b success_key (boolean r.success) json) still in
        let there : at message_key told ≡ some (string m) = ap (at message_key) same ∙ k.message in
        ap (at message_key) (
          ap (λ b. put_if b message_key (string (x.narrow r.message)) told)
            (ap₂ replaces still there ∙ h))
        ∙ there;
  }
