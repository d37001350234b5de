-- ===== src/Kkm/Success.antt =====
-- A result that reports success hides no failed command.
use kkm_https_adapter.Base.{
  Bool, true, false, not, ◌&&◌, ◌||◌, [], ◌∷◌, ◌≡◌, refl, ap, ◌∙◌, Bool-cases, inl, inr, arith,
}
use kkm_https_adapter.Kkm.Driver.{WideText, Driver, Command, History, call}
use kkm_https_adapter.Kkm.Results.{Result}
use kkm_https_adapter.Kkm.Details.{ReceiptType, ReceiptDetails, CloseDetails}
use kkm_https_adapter.Kkm.Method.{
  Device, Flow, going, left, threw, attempt, demand, failed, need_to_cancel,
}
use kkm_https_adapter.Kkm.Method.Laws.{Assertion, Triple, Ends, Invariant, is_poll}
use kkm_https_adapter.Kkm.Reports.{Settings, checking_error}
use kkm_https_adapter.Kkm.Shift.{close_shift, report_x, reset_state}
use kkm_https_adapter.Kkm.Receipt.{sub_register_receipt}
use kkm_https_adapter.Kkm.Receipt.Preserved.{sub_register_receipt-Triple}
use kkm_https_adapter.Kkm.Preservation.{close_shift-Triple, report_x-Triple, reset_state-Triple}

-- No call of these has failed, the repeated polls of a document's state aside.
unfoldable pub all_succeeded : Driver → History → Bool
all_succeeded k [] = true
all_succeeded k (call c ∷ h) = (is_poll c || k.succeeds (call c ∷ h)) && all_succeeded k h
all_succeeded k (e ∷ h) = all_succeeded k h

module _ (k : Driver) where
  abbrev pub is_honest : Result Unit → Device → Bool
  is_honest r d = not r.success || all_succeeded k d.history

  -- The same at the end of a method; an exception reports no success.
  abbrev pub ends_honest : Flow Unit → Bool
  ends_honest (going r d) = is_honest r d
  ends_honest (left r d) = is_honest r d
  ends_honest (threw m d) = true

  abbrev honest : Assertion Unit
  honest r d = is_honest r d ≡ true

  abbrev Anything : Device → Type 0
  Anything d = Unit

  failed_fails : (m : WideText) (r : Result Unit) → (failed m r).success ≡ false
  unfolding failed
  failed_fails m r = ground arith

  call_succeeded :
      (c : Command) (h : History)
      → k.succeeds (call c ∷ h) ≡ true
      → all_succeeded k (call c ∷ h) ≡ all_succeeded k h
  unfolding all_succeeded
  call_succeeded c h s = elim (Bool-cases (is_poll c)) [
    | inl e ↦ rw e refl
    | inr e ↦ rw (e, s) refl
  ]

  attempt-honest : (c : Command) → Triple honest (attempt k c) honest honest Anything
  unfolding attempt
  attempt-honest c = record {
    run = λ r d h. elim (Bool-cases (k.succeeds (call c ∷ d.history))) [
      | inl s ↦ rw s (ap (λ b. not r.success || b) (call_succeeded c (d.history) s) ∙ h)
      | inr s ↦ rw s (rw (failed_fails (k.error_description (call c ∷ d.history)) r) refl)
    ];
  }

  honest-Invariant : Invariant k honest Anything
  unfolding attempt demand all_succeeded
  honest-Invariant = record {
    put_kept = λ q v. record { run = λ r d h. h };
    attempt_kept = λ c e. attempt-honest c;
    demand_kept = λ c e. record {
      run = λ r d h. elim (Bool-cases (k.succeeds (call c ∷ d.history))) [
        | inl s ↦ rw s (ap (λ b. not r.success || b) (call_succeeded c (d.history) s) ∙ h)
        | inr s ↦ rw s tt
      ];
    };
    raise_kept = λ m. record { run = λ r d h. tt };
    poll_kept = λ c e r d h. rw e h;
    fail_kept = λ r d h. rw (failed_fails checking_error r) refl;
    cancel_kept = λ r d h. rw (failed_fails checking_error r) refl;
  }

  noted : (b : Bool) → Triple honest (need_to_cancel b) honest honest Anything
  noted b = record { run = λ r d h. h }

  ends_honest_lem : (f : Flow Unit) → Ends honest honest Anything f → ends_honest f ≡ true
  ends_honest_lem (going r d) h = h
  ends_honest_lem (left r d) h = h
  ends_honest_lem (threw m d) h = refl

  -- Where a result that reports success hides no failed command before the registration of a receipt, it
  -- hides none behind it, however the registration ends: none of the driver's commands has failed,
  -- the repeated polls of the document's state aside.
  pub sub_register_receipt-honest :
      (settings : Settings) (type : ReceiptType) (details : ReceiptDetails) (r : Result Unit)
      (d : Device)
      → is_honest r d ≡ true
      → ends_honest (sub_register_receipt k settings type details r d) ≡ true
  sub_register_receipt-honest settings type details r d h = ends_honest_lem _ (
      (sub_register_receipt-Triple k settings honest Anything honest-Invariant honest honest
          (attempt-honest Command.open_receipt) (noted true) (attempt-honest Command.close_receipt)
          (noted false) type details).run
        r d h)

  -- Where a result that reports success hides no failed command before the closing of a shift, the X
  -- report or the reset, it hides none behind it, the repeated polls of a document's state aside.
  pub shift-honest :
      (settings : Settings) (details : CloseDetails) (r : Result Unit) (d : Device)
      → is_honest r d ≡ true
      → (ends_honest (close_shift k settings details r d) ≡ true)
        × (ends_honest (report_x k settings details r d) ≡ true)
        × (ends_honest (reset_state k settings details r d) ≡ true)
  shift-honest settings details r d h = (
    ends_honest_lem _
        ((close_shift-Triple k settings honest Anything honest-Invariant details).run r d h),
    ends_honest_lem _
        ((report_x-Triple k settings honest Anything honest-Invariant details).run r d h),
    ends_honest_lem _
        ((reset_state-Triple k settings honest Anything honest-Invariant details).run r d h),
  )
