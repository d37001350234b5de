-- ===== src/Kkm/Reports/Polling.antt =====
-- The polls of `subCheckDocumentClosed`.
use kkm_https_adapter.Base.{
  ℕ, zero, suc, Bool, true, false, not, ◌&&◌, ◌∷◌, ◌≡◌, refl, arith, Bool-cases, inl, inr,
}
use kkm_https_adapter.Kkm.Driver.{WideText, Driver, Command, History, call}
use kkm_https_adapter.Kkm.Results.{Result}
use kkm_https_adapter.Kkm.Method.{Device, Flow, left, issue, failed}
use kkm_https_adapter.Kkm.Reports.{
  Settings, poll, attempts, checked, checking_error, sub_check_document_closed,
}

-- The next polls, as many as this, all fail.
abbrev pub all_fail : Driver → Command → ℕ → Device → Bool
all_fail k c zero d = true
all_fail k c (suc n) d = not (k.succeeds (call c ∷ d.history)) && all_fail k c n (issue (call c) d)

poll_exhausted :
    (k : Driver) (c : Command) (n : ℕ) (d : Device) → all_fail k c n d ≡ true → (poll k c n d).0 ≡ 0
unfolding poll
poll_exhausted k c zero d h = refl
poll_exhausted k c (suc n) d h = elim (Bool-cases (k.succeeds (call c ∷ d.history))) [
  | inl s ↦ let e : false ≡ true = rw s at h in cc
  | inr s ↦ rw s (poll_exhausted k c n (issue (call c) d) (rw s at h))
]

abbrev is_cancelled : History → Bool
is_cancelled (call Command.cancel_receipt ∷ h) = true
is_cancelled _ = false

-- The method is left with a failure, and cancelling the receipt is the last call.
abbrev pub ends_cancelled : Flow Unit → Bool
ends_cancelled (left r d) = not r.success && is_cancelled d.history
ends_cancelled _ = false

failed_fails : (m : WideText) (r : Result Unit) → (failed m r).success ≡ false
unfolding failed
failed_fails m r = ground arith

checked_zero :
    (k : Driver) (settings : Settings) (n : ℕ) (r : Result Unit) (d : Device)
    → n ≡ 0
    → ends_cancelled (checked k settings n r d) ≡ true
checked_zero k settings n r d e = rw e (rw (failed_fails checking_error r) refl)

-- When the polls that the timeout allows have failed, the receipt is cancelled and the result is a
-- failure, also where the poll behind them, which the source still makes, succeeds.
pub sub_check_document_closed_late :
    (k : Driver) (settings : Settings) (r : Result Unit) (d : Device)
    → all_fail k Command.check_document_closed (attempts settings) d ≡ true
    → ends_cancelled (sub_check_document_closed k settings r d) ≡ true
unfolding sub_check_document_closed
sub_check_document_closed_late k settings r d h =
    checked_zero k settings _ r _
      (poll_exhausted k Command.check_document_closed (attempts settings) d h)
