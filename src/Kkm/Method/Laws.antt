-- ===== src/Kkm/Method/Laws.antt =====
-- Reasoning about methods: what holds before a statement, what holds when it goes on, when it leaves
-- its method, and when it throws.
use kkm_https_adapter.Base.{Bool, true, false, ◌≡◌, if◌then◌else◌}
use kkm_https_adapter.Kkm.Driver.{WideText, Driver, Param, Command, History, Value, call}
use kkm_https_adapter.Kkm.Results.{Result}
use kkm_https_adapter.Kkm.Reports.{checking_error}
use kkm_https_adapter.Kkm.Method.{
  Device, Flow, Method, going, left, threw, ◌>>◌, next, put, attempt, demand, when, asking, invoke,
  returned, issue, failed, raise,
}

abbrev pub Assertion : Type 0 → Type 1
Assertion A = Result A → Device → Type 0

abbrev pub Ends : {A : Type 0} → Assertion A → Assertion A → (Device → Type 0) → Flow A → Type 0
Ends q e x (going r d) = q r d
Ends q e x (left r d) = e r d
Ends q e x (threw m d) = x d

-- From `p` the statement `m` goes on with `q`, leaves with `e`, or throws with `x`.
pub record Triple {A : Type 0} (p : Assertion A) (m : Method A) (q e : Assertion A)
    (x : Device → Type 0) : Type 0 where
  pub run : (r : Result A) (d : Device) → p r d → Ends q e x (m r d)

module _ {A : Type 0} where
  next-Ends :
      (p q e : Assertion A) (x : Device → Type 0) (n : Method A) (f : Flow A)
      → Ends p e x f
      → Triple p n q e x
      → Ends q e x (next f n)
  next-Ends p q e x n (going r d) h t = t.run r d h
  next-Ends p q e x n (left r d) h t = h
  next-Ends p q e x n (threw m d) h t = h

  pub >>-Triple :
      {p q s e : Assertion A} {x : Device → Type 0} {m n : Method A}
      → Triple p m q e x
      → Triple q n s e x
      → Triple p (m >> n) s e x
  >>-Triple {p} {q} {s} {e} {x} {m} {n} t u = record {
    run = λ r d h. next-Ends q s e x n (m r d) (t.run r d h) u;
  }

  returned-Ends :
      (q e : Assertion A) (x : Device → Type 0) (f : Flow A)
      → Ends q q x f
      → Ends q e x (returned f)
  returned-Ends q e x (going r d) h = h
  returned-Ends q e x (left r d) h = h
  returned-Ends q e x (threw m d) h = h

  pub invoke-Triple :
      {p q e : Assertion A} {x : Device → Type 0} {m : Method A}
      → Triple p m q q x
      → Triple p (invoke m) q e x
  invoke-Triple {p} {q} {e} {x} {m} t = record {
    run = λ r d h. returned-Ends q e x (m r d) (t.run r d h);
  }

  pub when-Triple :
      {p e : Assertion A} {x : Device → Type 0} {m : Method A} (b : Bool)
      → Triple p m p e x
      → Triple p (when b m) p e x
  when-Triple true t = t
  when-Triple false t = record { run = λ r d h. h }

  pub if-Triple :
      {p q e : Assertion A} {x : Device → Type 0} {m n : Method A} (b : Bool)
      → Triple p m q e x
      → Triple p n q e x
      → Triple p (if b then m else n) q e x
  if-Triple true t u = t
  if-Triple false t u = u

  pub asking-Triple :
      {B : Type 0} {p q e : Assertion A} {x : Device → Type 0} {m : B → Method A} (f : History → B)
      → ((b : B) → Triple p (m b) q e x)
      → Triple p (asking f m) q e x
  asking-Triple {B} {p} {q} {e} {x} {m} f t = record { run = λ r d h. (t (f d.history)).run r d h }

-- The two commands that open and close a receipt, and the two that are polled.
unfoldable pub is_receipt_command : Command → Bool
is_receipt_command Command.open_receipt = true
is_receipt_command Command.close_receipt = true
is_receipt_command _ = false

unfoldable pub is_poll : Command → Bool
is_poll Command.check_document_closed = true
is_poll Command.continue_print = true
is_poll _ = false

-- The commands that the invariants below treat apart: those, and these.
unfoldable pub is_reserved : Command → Bool
is_reserved Command.open_receipt = true
is_reserved Command.close_receipt = true
is_reserved Command.check_document_closed = true
is_reserved Command.continue_print = true
is_reserved _ = false

-- An assertion that the driver's calls keep, those of a receipt's opening and closing aside.
pub record Invariant {A : Type 0} (k : Driver) (p : Assertion A) (x : Device → Type 0)
    : Type 0 where
  pub put_kept : (q : Param) (v : Value) → Triple p (put q v) p p x
  pub attempt_kept : (c : Command) → is_reserved c ≡ false → Triple p (attempt k c) p p x
  pub demand_kept : (c : Command) → is_reserved c ≡ false → Triple p (demand k c) p p x
  pub raise_kept : (m : WideText) → Triple p (raise m) p p x
  pub poll_kept :
      (c : Command)
      → is_poll c ≡ true
      → (r : Result A) (d : Device) → p r d
      → p r (issue (call c) d)
  pub fail_kept : (r : Result A) (d : Device) → p r d → p (failed checking_error r) d
  pub cancel_kept :
      (r : Result A) (d : Device)
      → p r d
      → p (failed checking_error r) (issue (call Command.cancel_receipt) d)
