-- ===== src/Kkm/Shift/Failures.antt =====
-- What a failure within the X report does not keep from happening.
use kkm_https_adapter.Base.{Bool, true, false, ◌∷◌, ◌≡◌, refl, Bool-cases, inl, inr}
use kkm_https_adapter.Kkm.Driver.{
  Driver, Command, Constant, Param, History, call, set_param, reset_error, constant,
}
use kkm_https_adapter.Kkm.Results.{Result}
use kkm_https_adapter.Kkm.Details.{CloseDetails}
use kkm_https_adapter.Kkm.Method.{Device, Flow, going, left, threw, attempt, put, ◌>>◌}
use kkm_https_adapter.Kkm.Method.Laws.{
  Assertion, Triple, Ends, Invariant, >>-Triple, when-Triple, invoke-Triple,
}
use kkm_https_adapter.Kkm.Reports.{Settings}
use kkm_https_adapter.Kkm.Shift.{report_x}
use kkm_https_adapter.Kkm.Preservation.{sub_cash_out-Triple, sub_close_shift-Triple}

abbrev Anything : Device → Type 0
Anything d = Unit

-- The last command of a history is an X report, its error reset or not.
abbrev pub is_x_report : History → Bool
is_x_report (reset_error ∷ h) = is_x_report h
is_x_report (call Command.report ∷ (set_param Param.report_type (constant Constant.rt_x) ∷ h)) =
    true
is_x_report _ = false

abbrev pub ends_reported : Flow Unit → Bool
ends_reported (going r d) = is_x_report d.history
ends_reported (left r d) = is_x_report d.history
ends_reported (threw m d) = true

module _ (k : Driver) where
  abbrev trivial : Assertion Unit
  trivial r d = Unit

  abbrev x_report : Assertion Unit
  x_report r d = is_x_report d.history ≡ true

  ends_trivial : (g : Flow Unit) → Ends trivial trivial Anything g
  ends_trivial (going r d) = tt
  ends_trivial (left r d) = tt
  ends_trivial (threw m d) = tt

  trivial-Invariant : Invariant k trivial Anything
  trivial-Invariant = record {
    put_kept = λ q v. record { run = λ r d h. tt };
    attempt_kept = λ c e. record { run = λ r d h. ends_trivial _ };
    demand_kept = λ c e. record { run = λ r d h. ends_trivial _ };
    raise_kept = λ m. record { run = λ r d h. tt };
    poll_kept = λ c e r d h. tt;
    fail_kept = λ r d h. tt;
    cancel_kept = λ r d h. tt;
  }

  asked :
      Triple trivial
        (put Param.report_type (constant Constant.rt_x) >> attempt k Command.report)
        x_report
        x_report
        Anything
  unfolding attempt
  asked = record {
    run = λ r d h.
        elim (Bool-cases (
          k.succeeds (
            call Command.report
            ∷ (set_param Param.report_type (constant Constant.rt_x) ∷ d.history)))) [
              | inl s ↦ rw s refl
              | inr s ↦ rw s refl
            ];
  }

  ends_reported_lem : (g : Flow Unit) → Ends x_report x_report Anything g → ends_reported g ≡ true
  ends_reported_lem (going r d) h = h
  ends_reported_lem (left r d) h = h
  ends_reported_lem (threw m d) h = refl

  -- Unless an exception is thrown, `reportX` ends with the X report: it is asked for last, also when the
  -- payout or the closing of the shift in front of it has failed.
  pub report_x-reports :
      (settings : Settings) (details : CloseDetails) (r : Result Unit) (d : Device)
      → ends_reported (report_x k settings details r d) ≡ true
  unfolding report_x
  report_x-reports settings details r d =
      let cash = sub_cash_out-Triple k settings trivial Anything trivial-Invariant in
      let shift = sub_close_shift-Triple k settings trivial Anything trivial-Invariant in
      ends_reported_lem _ (
        (>>-Triple {p = trivial} {q = trivial} {s = x_report} {e = x_report} {x = Anything}
            (when-Triple details.cash_out (invoke-Triple (cash details.operator)))
            (>>-Triple (when-Triple details.close_shift (invoke-Triple (shift details.operator)))
              asked)).run
          r d tt)
