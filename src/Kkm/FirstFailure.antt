-- ===== src/Kkm/FirstFailure.antt =====
-- Which failure a result reports: the first of the driver's commands that has failed.
use kkm_https_adapter.Base.{
  Bool, true, false, ◌||◌, [], ◌∷◌, Option, none, some, inl, inr, ◌≡◌, refl, ap, ◌∙◌, sym,
  Bool-cases, if◌then◌else◌,
}
use kkm_https_adapter.Kkm.Driver.{WideText, Driver, Command, History, call}
use kkm_https_adapter.Kkm.Results.{Result}
use kkm_https_adapter.Kkm.Details.{ReceiptType, ReceiptDetails, CloseDetails}
use kkm_https_adapter.Kkm.Method.{
  Device, Flow, going, left, threw, attempt, demand, failed, need_to_cancel,
}
use kkm_https_adapter.Kkm.Method.Laws.{Assertion, Triple, Ends, Invariant, is_poll, is_reserved}
use kkm_https_adapter.Kkm.Reports.{Settings, checking_error}
use kkm_https_adapter.Kkm.Shift.{close_shift, report_x, reset_state}
use kkm_https_adapter.Kkm.Receipt.{sub_register_receipt}
use kkm_https_adapter.Kkm.Receipt.Preserved.{sub_register_receipt-Triple}
use kkm_https_adapter.Kkm.Preservation.{close_shift-Triple, report_x-Triple, reset_state-Triple}

abbrev earlier : Option WideText → Option WideText → Option WideText
earlier none later = later
earlier (some m) later = some m

-- What the driver said of the earliest of these commands that has failed, the repeated polls of a
-- document's state aside.
unfoldable pub first_error : Driver → History → Option WideText
unfolding is_poll
first_error k [] = none
first_error k (call c ∷ h) =
    earlier (first_error k h) (
      if is_poll c || k.succeeds (call c ∷ h)
      then none
      else some (k.error_description (call c ∷ h)))
first_error k (e ∷ h) = first_error k h

module _ (k : Driver) where
  -- Success, and no command has failed; or a failure with the message of the first command that has, or
  -- with the one of a document whose closing could not be checked.
  pub data Tells (r : Result Unit) (d : Device) : Type 0 where
    succeeded : r.success ≡ true → first_error k d.history ≡ none → Tells r d
    first : r.success ≡ false → first_error k d.history ≡ some r.message → Tells r d
    unchecked : r.success ≡ false → r.message ≡ checking_error → Tells r d

  abbrev pub EndsTelling : Flow Unit → Type 0
  EndsTelling (going r d) = Tells r d
  EndsTelling (left r d) = Tells r d
  EndsTelling (threw m d) = Unit

  abbrev tells : Assertion Unit
  tells r d = Tells r d

  abbrev Anything : Device → Type 0
  Anything d = Unit

  failed_of_success :
      (m : WideText) (r : Result Unit)
      → r.success ≡ true
      → ((failed m r).success ≡ false) × ((failed m r).message ≡ m)
  unfolding failed
  failed_of_success m r h = rw h (refl, refl)

  failed_of_failure : (m : WideText) (r : Result Unit) → r.success ≡ false → failed m r ≡ r
  unfolding failed
  failed_of_failure m r h = rw h refl

  unpolled : (c : Command) → is_reserved c ≡ false → is_poll c ≡ false
  unfolding is_reserved is_poll
  unpolled Command.check_document_closed e = cc
  unpolled Command.continue_print e = cc
  unpolled _ e = refl

  succeeded_call :
      (c : Command) (h : History)
      → is_poll c || k.succeeds (call c ∷ h) ≡ true
      → first_error k (call c ∷ h) ≡ first_error k h
  unfolding first_error
  succeeded_call c h s = rw s (none_later (first_error k h))
    where
      none_later : (o : Option WideText) → earlier o none ≡ o
      none_later none = refl
      none_later (some m) = refl

  -- A call that does not fail changes nothing, and what has been told stays told.
  later_call :
      (c : Command) (r : Result Unit) (d e : Device)
      → e.history ≡ call c ∷ d.history
      → is_poll c || k.succeeds (call c ∷ d.history) ≡ true
      → Tells r d
      → Tells r e
  later_call c r d e h s (succeeded t f) =
      succeeded t (ap (first_error k) h ∙ (succeeded_call c d.history s ∙ f))
  later_call c r d e h s (first t f) =
      first t (ap (first_error k) h ∙ (succeeded_call c d.history s ∙ f))
  later_call c r d e h s (unchecked t m) = unchecked t m

  still_first :
      (c : Command) (h : History) (m : WideText)
      → first_error k h ≡ some m
      → first_error k (call c ∷ h) ≡ some m
  unfolding first_error
  still_first c h m e = rw e refl

  failed_call :
      (c : Command) (h : History)
      → is_poll c || k.succeeds (call c ∷ h) ≡ false
      → first_error k h ≡ none
      → first_error k (call c ∷ h) ≡ some (k.error_description (call c ∷ h))
  unfolding first_error
  failed_call c h s e = rw (e, s) refl

  -- A call that fails is told, unless a failure is told already.
  failing_call :
      (c : Command) (r : Result Unit) (d e : Device)
      → first_error k e.history ≡ first_error k (call c ∷ d.history)
      → is_poll c || k.succeeds (call c ∷ d.history) ≡ false
      → Tells r d
      → Tells (failed (k.error_description (call c ∷ d.history)) r) e
  failing_call c r d e h s (succeeded t f) =
      let m = k.error_description (call c ∷ d.history) in
      let (fails, says) = failed_of_success m r t in
      first fails (h ∙ (failed_call c d.history s f ∙ ap some (sym says)))
  failing_call c r d e h s (first t f) =
      rw (failed_of_failure (k.error_description (call c ∷ d.history)) r t)
        (first t (h ∙ still_first c d.history r.message f))
  failing_call c r d e h s (unchecked t m) =
      rw (failed_of_failure (k.error_description (call c ∷ d.history)) r t) (unchecked t m)

  -- The failure of a check, in front of which a command may be called.
  check_fails :
      (r : Result Unit) (d e : Device)
      → ((m : WideText) → first_error k d.history ≡ some m → first_error k e.history ≡ some m)
      → Tells r d
      → Tells (failed checking_error r) e
  check_fails r d e h (succeeded t f) =
      let (fails, says) = failed_of_success checking_error r t in unchecked fails says
  check_fails r d e h (first t f) =
      rw (failed_of_failure checking_error r t) (first t (h r.message f))
  check_fails r d e h (unchecked t m) = rw (failed_of_failure checking_error r t) (unchecked t m)

  or_of : (a b : Bool) → a ≡ false → b ≡ false → a || b ≡ false
  or_of a b h g = rw (h, g) refl

  or_right : (a b : Bool) → b ≡ true → a || b ≡ true
  or_right true b h = refl
  or_right false b h = h

  same_history :
      (r : Result Unit) (d e : Device)
      → first_error k e.history ≡ first_error k d.history
      → Tells r d
      → Tells r e
  same_history r d e h (succeeded t f) = succeeded t (h ∙ f)
  same_history r d e h (first t f) = first t (h ∙ f)
  same_history r d e h (unchecked t m) = unchecked t m

  attempt-Tells :
      (c : Command) → is_poll c ≡ false → Triple tells (attempt k c) tells tells Anything
  unfolding attempt first_error
  attempt-Tells c p = record {
    run = λ r d h. elim (Bool-cases (k.succeeds (call c ∷ d.history))) [
      | inl s ↦ rw s (later_call c r d _ refl (or_right (is_poll c) _ s) h)
      | inr s ↦ rw s (failing_call c r d _ refl (or_of (is_poll c) _ p s) h)
    ];
  }

  tells-Invariant : Invariant k tells Anything
  unfolding demand first_error
  tells-Invariant = record {
    put_kept = λ q v. record { run = λ r d h. same_history r d _ refl h };
    attempt_kept = λ c e. attempt-Tells c (unpolled c e);
    demand_kept = λ c e. record {
      run = λ r d h. elim (Bool-cases (k.succeeds (call c ∷ d.history))) [
        | inl s ↦ rw s (later_call c r d _ refl (or_right (is_poll c) _ s) h)
        | inr s ↦ rw s tt
      ];
    };
    raise_kept = λ m. record { run = λ r d h. tt };
    poll_kept = λ c e r d h. later_call c r d _ refl (rw e refl) h;
    fail_kept = λ r d h. check_fails r d d (λ m f. f) h;
    cancel_kept =
        λ r d h. check_fails r d _ (λ m f. still_first Command.cancel_receipt d.history m f) h;
  }

  noted : (b : Bool) → Triple tells (need_to_cancel b) tells tells Anything
  noted b = record { run = λ r d h. same_history r d _ refl h }

  ends_telling : (f : Flow Unit) → Ends tells tells Anything f → EndsTelling f
  ends_telling (going r d) h = h
  ends_telling (left r d) h = h
  ends_telling (threw m d) h = tt

  module _ (r : Result Unit) (d : Device) (new : r.success ≡ true)
      (none_yet : first_error k d.history ≡ none) where
    start : Tells r d
    start = succeeded new none_yet

    -- From a new result, and where no command has failed before, the closing of a shift, the X report and
    -- the reset, unless they throw, end with a success and no failed command, or with the message of the
    -- first command that has failed (the repeated polls of a document's state aside), or with that of a
    -- document whose closing could not be checked.
    pub shift-EndsTelling :
        (settings : Settings) (details : CloseDetails)
        → EndsTelling (close_shift k settings details r d)
          × EndsTelling (report_x k settings details r d)
          × EndsTelling (reset_state k settings details r d)
    shift-EndsTelling settings details = (
      ends_telling _
          ((close_shift-Triple k settings tells Anything tells-Invariant details).run r d start),
      ends_telling _
          ((report_x-Triple k settings tells Anything tells-Invariant details).run r d start),
      ends_telling _
          ((reset_state-Triple k settings tells Anything tells-Invariant details).run r d start),
    )

    -- From a new result, and where no command has failed before, the registration of a receipt, unless it
    -- throws, ends with a success and no failed command, or with the message of the first command that has
    -- failed (the repeated polls of a document's state aside), or with that of a document whose closing
    -- could not be checked.
    pub sub_register_receipt-EndsTelling :
        (settings : Settings) (type : ReceiptType) (details : ReceiptDetails)
        → EndsTelling (sub_register_receipt k settings type details r d)
    unfolding is_poll
    sub_register_receipt-EndsTelling settings type details = ends_telling _ (
        (sub_register_receipt-Triple k settings tells Anything tells-Invariant tells tells
            (attempt-Tells Command.open_receipt refl) (noted true)
            (attempt-Tells Command.close_receipt refl) (noted false) type details).run
          r d start)
