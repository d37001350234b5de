-- ===== src/Kkm/Connection/Checked.antt =====
-- What is known of a device that has been made: the serial number that the cash register reported.
use kkm_https_adapter.Base.{
  ◌∷◌, not, ltb, is_nil, if◌then◌else◌, Bool-cases, inl, inr, ◌≡◌, equal, equal_iff, ℕ,
}
use kkm_https_adapter.Kkm.Driver.{WideText, Driver, Param, Command, Value, call}
use kkm_https_adapter.Kkm.Results.{Result}
use kkm_https_adapter.Kkm.Method.{
  Device, Flow, Method, going, left, threw, ◌>>◌, next, put, demand, raise,
}
use kkm_https_adapter.Kkm.Method.Laws.{Triple, Ends, >>-Triple, when-Triple, asking-Triple}
use kkm_https_adapter.Kkm.Reports.{Settings}
use kkm_https_adapter.Kkm.Connection.{
  connect, connect_known, keep_serial_number, keep_line_length, not_available, exchange_error,
  serial_number_mismatch,
}

-- The statement goes on or throws: nothing in it returns.
abbrev pub Stays : {A : Type 0} → Method A → Type 0
Stays m = Triple (λ r d. Unit) m (λ r d. Unit) (λ r d. ⊥) (λ d. Unit)

module _ {A : Type 0} where
  pub put-Stays : (p : Param) (v : Value) → Stays {A = A} (put p v)
  put-Stays p v = record { run = λ r d h. tt }

  pub raise-Stays : (m : WideText) → Stays {A = A} (raise m)
  raise-Stays m = record { run = λ r d h. tt }

  pub demand-Stays : (k : Driver) (c : Command) → Stays {A = A} (demand k c)
  unfolding demand
  demand-Stays k c = record {
    run = λ r d h. elim (Bool-cases (k.succeeds (call c ∷ d.history))) [
      | inl e ↦ rw e tt
      | inr e ↦ rw e tt
    ];
  }

  >>-Stays : {m n : Method A} → Stays m → Stays n → Stays (m >> n)
  >>-Stays t u = >>-Triple t u

  serial-Stays : (s : WideText) → Stays {A = A} (keep_serial_number s)
  serial-Stays s = record { run = λ r d h. tt }

  length-Stays : (n : ℕ) → Stays {A = A} (keep_line_length n)
  length-Stays n = record { run = λ r d h. tt }

  -- The device that the constructor from known parameters makes.
  abbrev pub Checked : WideText → Flow A → Type 0
  Checked serial (going r d) = d.serial_number ≡ serial
  Checked serial (left r d) = ⊥
  Checked serial (threw m d) = Unit

  module _ (k : Driver) (settings : Settings) (apply : Method A) (applied : Stays apply) where
    connect-Stays : Stays (connect k settings apply)
    unfolding connect
    connect-Stays = >>-Stays applied (
        >>-Stays (demand-Stays k _) (
          >>-Stays (asking-Triple _ (λ b. when-Triple (not b) (raise-Stays not_available))) (
            >>-Stays (put-Stays _ _) (
              >>-Stays (demand-Stays k _) (
                >>-Stays
                  (asking-Triple {B = WideText} (λ h. k.get_string h Param.serial_number)
                    (λ s.
                      >>-Stays (serial-Stays s)
                        (when-Triple (is_nil s) (raise-Stays exchange_error))))
                  (>>-Stays (put-Stays _ _) (
                    >>-Stays (demand-Stays k _) (
                      asking-Triple {B = ℕ} (λ h. k.get_int h Param.receipt_line_length)
                        (λ n.
                          length-Stays
                            (if ltb n 1 then settings.default_line_length else n))))))))))

    checks :
        (serial : WideText) (f : Flow A)
        → Ends (λ r d. Unit) (λ r d. ⊥) (λ d. Unit) f
        → Checked serial (
            next f (λ r d.
              if equal d.serial_number serial
              then going r d
              else threw (serial_number_mismatch serial d.serial_number) d))
    checks serial (going r d) h = elim (Bool-cases (equal d.serial_number serial)) [
      | inl e ↦ rw e ((equal_iff d.serial_number serial).0 e)
      | inr e ↦ rw e tt
    ]
    checks serial (left r d) h = h
    checks serial (threw m d) h = tt

    -- A device that is made for known parameters has reported their serial number.
    pub connect_known-Checked :
        (serial : WideText) (r : Result A) (d : Device)
        → Checked serial (connect_known k settings apply serial r d)
    unfolding connect_known
    connect_known-Checked serial r d =
        checks serial (connect k settings apply r d) (connect-Stays.run r d tt)
