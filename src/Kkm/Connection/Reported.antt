-- ===== src/Kkm/Connection/Reported.antt =====
-- Where the serial number of a device that has been made comes from.
use kkm_https_adapter.Base.{
  ℕ, Bool, ◌∷◌, not, ltb, is_nil, if◌then◌else◌, Bool-cases, inl, inr, ◌≡◌, refl, ap,
}
use kkm_https_adapter.Kkm.Driver.{
  WideText, Driver, Param, Command, Constant, constant, History, Value, call, set_param,
}
use kkm_https_adapter.Kkm.Results.{Result}
use kkm_https_adapter.Kkm.Method.{
  Device, Flow, Method, going, left, threw, ◌>>◌, put, demand, when, asking, raise,
}
use kkm_https_adapter.Kkm.Method.Laws.{Triple, Ends, >>-Triple, asking-Triple, when-Triple}
use kkm_https_adapter.Kkm.Reports.{Settings}
use kkm_https_adapter.Kkm.Connection.{
  connect, keep_serial_number, keep_line_length, not_available, exchange_error,
}
use kkm_https_adapter.Kkm.Connection.Checked.{Stays, demand-Stays, raise-Stays}

-- A query for the serial number behind these calls.
abbrev pub serial_query : History → History
serial_query h =
    call Command.query_data ∷ (set_param Param.data_type (constant Constant.dt_serial_number) ∷ h)

-- The statement goes on with `q` from `p`, or throws.
abbrev Step : {A : Type 0} → (Device → Type 0) → (Device → Type 0) → Method A → Type 0
Step p q m = Triple (λ r d. p d) m (λ r d. q d) (λ r d. ⊥) (λ d. Unit)

-- The serial number is the driver's answer to a query for it.
abbrev pub Reported : Driver → Device → Type 0
Reported k d = (h : History) × (d.serial_number ≡ k.get_string (serial_query h) Param.serial_number)

abbrev Anything : Device → Type 0
Anything d = Unit

abbrev Asking : Device → Type 0
Asking d =
    (h : History) × (d.history ≡ set_param Param.data_type (constant Constant.dt_serial_number) ∷ h)

abbrev Asked : Device → Type 0
Asked d = (h : History) × (d.history ≡ serial_query h)

module _ {A : Type 0} (k : Driver) where
  then_step :
      {p q s : Device → Type 0} {m n : Method A} → Step p q m → Step q s n → Step p s (m >> n)
  then_step t u = >>-Triple t u

  asks : Step {A = A} Anything Asking (put Param.data_type (constant Constant.dt_serial_number))
  asks = record { run = λ r d h. (d.history, refl) }

  queries : Step {A = A} Asking Asked (demand k Command.query_data)
  unfolding demand
  queries = record {
    run = λ r d h. elim (Bool-cases (k.succeeds (call Command.query_data ∷ d.history))) [
      | inl e ↦ rw e (h.0, ap (◌∷◌ (call Command.query_data)) h.1)
      | inr e ↦ rw e tt
    ];
  }

  abbrev keeps : WideText → Method A
  keeps s = keep_serial_number s >> when (is_nil s) (raise exchange_error)

  answers : Step {A = A} Asked (Reported k) (asking (λ h. k.get_string h Param.serial_number) keeps)
  answers = record {
    run = λ r d h. elim (Bool-cases (is_nil (k.get_string d.history Param.serial_number))) [
      | inl e ↦ rw e tt
      | inr e ↦ rw e (h.0, ap (λ t. k.get_string t Param.serial_number) h.1)
    ];
  }

  puts : (q : Param) (v : Value) → Step {A = A} (Reported k) (Reported k) (put q v)
  puts q v = record { run = λ r d h. h }

  demands : (c : Command) → Step {A = A} (Reported k) (Reported k) (demand k c)
  unfolding demand
  demands c = record {
    run = λ r d h. elim (Bool-cases (k.succeeds (call c ∷ d.history))) [
      | inl e ↦ rw e h
      | inr e ↦ rw e tt
    ];
  }

  measures : (n : ℕ) → Step {A = A} (Reported k) (Reported k) (keep_line_length n)
  measures n = record { run = λ r d h. h }

  -- How a connection ends: with a device whose serial number has been reported, or with an exception.
  abbrev pub EndsReported : Flow A → Type 0
  EndsReported (going r d) = Reported k d
  EndsReported (left r d) = ⊥
  EndsReported (threw m d) = Unit

  ends_reported :
      (f : Flow A) → Ends (λ r d. Reported k d) (λ r d. ⊥) (λ d. Unit) f → EndsReported f
  ends_reported (going r d) h = h
  ends_reported (left r d) h = h
  ends_reported (threw m d) h = h

  module _ (settings : Settings) (apply : Method A) (applied : Stays apply) where
    connect-Step : Step Anything (Reported k) (connect k settings apply)
    unfolding connect
    connect-Step = then_step applied (
        then_step (demand-Stays k Command.open_device) (
          then_step
            (asking-Triple {B = Bool} (λ h. k.is_opened h)
              (λ b. when-Triple (not b) (raise-Stays not_available)))
            (then_step asks (
              then_step queries (
                then_step answers (
                  then_step (puts Param.data_type (constant Constant.dt_receipt_line_length)) (
                    then_step (demands Command.query_data) (
                      asking-Triple {B = ℕ} (λ h. k.get_int h Param.receipt_line_length)
                        (λ n.
                          measures (if ltb n 1 then settings.default_line_length else n))))))))))

    pub connect-EndsReported :
        (r : Result A) (d : Device) → EndsReported (connect k settings apply r d)
    connect-EndsReported r d =
        ends_reported (connect k settings apply r d) (connect-Step.run r d tt)
