-- ===== src/Kkm/Method.antt =====
-- The class `Device` of src/library/kkm/device.h, and what its methods are made of: a method is a
-- sequence of statements over the result that it is given and the device. A statement goes on, or
-- leaves the method, or throws a `Failure`. Log lines and pauses are left out.
pub mod Laws
use kkm_https_adapter.Base.{ℕ, Bool, true, false, List, ◌∷◌, if◌then◌else◌}
use kkm_https_adapter.Kkm.Driver.{
  WideText, Driver, Param, Command, Event, History, Value, set_param, call, reset_error,
}
use kkm_https_adapter.Kkm.Results.{Result}

-- `m_kkm` by the calls that it has had, `m_serialNumber`, `m_lineLength`, `m_needToCancelReceipt`.
pub record Device : Type 0 where
  pub history : History
  pub serial_number : WideText
  pub line_length : ℕ
  pub need_to_cancel_receipt : Bool

pub data Flow (A : Type 0) : Type 0 where
  going : Result A → Device → Flow A
  left : Result A → Device → Flow A
  threw : WideText → Device → Flow A

abbrev pub Method : Type 0 → Type 0
Method A = Result A → Device → Flow A

abbrev pub next : {A : Type 0} → Flow A → Method A → Flow A
next (going r d) n = n r d
next (left r d) n = left r d
next (threw m d) n = threw m d

infixr 4 ◌>>◌
abbrev pub ◌>>◌ : {A : Type 0} → Method A → Method A → Method A
(m >> n) r d = next (m r d) n

abbrev pub issue : Event → Device → Device
issue e d = record d { history = e ∷ d.history }

-- `fail`: the first failure of a result is the one that it keeps.
unfoldable pub failed : {A : Type 0} → WideText → Result A → Result A
failed message r = if r.success then record r { message = message; success = false } else r

-- `return fail(result, message)`.
abbrev pub fail_with : {A : Type 0} → WideText → Method A
fail_with message r d = left (failed message r) d

-- `if (m_kkm.…() < 0) { return fail(result); }`.
unfoldable pub attempt : {A : Type 0} → Driver → Command → Method A
unfolding failed
attempt k c r d =
    let after = issue (call c) d in
    if k.succeeds after.history
    then going r after
    else left (failed (k.error_description after.history) r) (issue reset_error after)

-- `if (m_kkm.…() < 0) { throw Failure(m_kkm); }`.
unfoldable pub demand : {A : Type 0} → Driver → Command → Method A
demand k c r d =
    let after = issue (call c) d in
    if k.succeeds after.history
    then going r after
    else threw (k.error_description after.history) (issue reset_error after)

abbrev pub raise : {A : Type 0} → WideText → Method A
raise message r d = threw message d

abbrev pub put : {A : Type 0} → Param → Value → Method A
put p v r d = going r (issue (set_param p v) d)

-- The assignments to the result's own fields.
abbrev pub read : {A : Type 0} → (History → A → A) → Method A
read f r d = going (record r { rest = f d.history r.rest }) d

abbrev pub proceed : {A : Type 0} → Method A
proceed r d = going r d

abbrev pub when : {A : Type 0} → Bool → Method A → Method A
when b m = if b then m else proceed

-- A statement that reads the driver's answers.
abbrev pub asking : {A B : Type 0} → (History → B) → (B → Method A) → Method A
asking f m r d = m (f d.history) r d

-- A statement that reads `m_lineLength`.
abbrev pub with_line_length : {A : Type 0} → (ℕ → Method A) → Method A
with_line_length m r d = m d.line_length r d

abbrev pub need_to_cancel : {A : Type 0} → Bool → Method A
need_to_cancel b r d = going r (record d { need_to_cancel_receipt = b })

-- A method that is called by another one: its `return` ends itself only.
abbrev pub returned : {A : Type 0} → Flow A → Flow A
returned (going r d) = going r d
returned (left r d) = going r d
returned (threw m d) = threw m d

abbrev pub invoke : {A : Type 0} → Method A → Method A
invoke m r d = returned (m r d)

-- The device behind a statement.
abbrev pub device_of : {A : Type 0} → Flow A → Device
device_of (going r d) = d
device_of (left r d) = d
device_of (threw m d) = d
