-- ===== src/Kkm/OpenReceipt.antt =====
-- `m_needToCancelReceipt` against the calls that the driver has had: no receipt is left open.
use kkm_https_adapter.Base.{
  Bool, true, false, [], ◌∷◌, ◌≡◌, refl, sym, ap, ◌∙◌, arith, if◌then◌else◌, Bool-cases, inl, inr,
}
use kkm_https_adapter.Kkm.Driver.{Driver, Command, History, call}
use kkm_https_adapter.Kkm.Results.{Result}
use kkm_https_adapter.Kkm.Details.{ReceiptType, ReceiptDetails}
use kkm_https_adapter.Kkm.Method.{
  Device, Flow, going, left, threw, attempt, need_to_cancel, device_of, demand,
}
use kkm_https_adapter.Kkm.Method.Laws.{
  Assertion, Triple, Ends, Invariant, is_receipt_command, is_reserved, is_poll,
}
use kkm_https_adapter.Kkm.Reports.{Settings}
use kkm_https_adapter.Kkm.Receipt.{sub_register_receipt}
use kkm_https_adapter.Kkm.Receipt.Preserved.{sub_register_receipt-Triple}
use kkm_https_adapter.Kkm.Connection.{destroy}

-- A receipt has been opened with success, and none closed with success since.
unfoldable pub pending : Driver → History → Bool
pending k [] = false
pending k (call Command.open_receipt ∷ h) =
    if k.succeeds (call Command.open_receipt ∷ h) then true else pending k h
pending k (call Command.close_receipt ∷ h) =
    if k.succeeds (call Command.close_receipt ∷ h) then false else pending k h
pending k (e ∷ h) = pending k h

module _ (k : Driver) where
  abbrev pub IsTracked : Device → Type 0
  IsTracked d = d.need_to_cancel_receipt ≡ pending k d.history

  abbrev tracked : Assertion Unit
  tracked r d = IsTracked d

  other_command :
      (c : Command) (h : History)
      → is_receipt_command c ≡ false
      → pending k (call c ∷ h) ≡ pending k h
  unfolding pending is_receipt_command
  other_command Command.open_receipt h e = cc
  other_command Command.close_receipt h e = cc
  other_command _ h e = refl

  reserved_receipt : (c : Command) → is_reserved c ≡ false → is_receipt_command c ≡ false
  unfolding is_reserved is_receipt_command
  reserved_receipt Command.open_receipt e = cc
  reserved_receipt Command.close_receipt e = cc
  reserved_receipt _ e = refl

  poll_is_other : (c : Command) → is_poll c ≡ true → is_receipt_command c ≡ false
  unfolding is_poll is_receipt_command
  poll_is_other Command.open_receipt e = cc
  poll_is_other Command.close_receipt e = cc
  poll_is_other _ e = refl

  tracked-Invariant : Invariant k tracked IsTracked
  unfolding attempt demand pending is_receipt_command
  tracked-Invariant = record {
    put_kept = λ q v. record { run = λ r d h. h };
    attempt_kept = λ c e. record {
      run = λ r d h. elim (Bool-cases (k.succeeds (call c ∷ d.history))) [
        | inl s ↦ rw s (h ∙ sym (other_command c (d.history) (reserved_receipt c e)))
        | inr s ↦ rw s (h ∙ sym (other_command c (d.history) (reserved_receipt c e)))
      ];
    };
    demand_kept = λ c e. record {
      run = λ r d h. elim (Bool-cases (k.succeeds (call c ∷ d.history))) [
        | inl s ↦ rw s (h ∙ sym (other_command c (d.history) (reserved_receipt c e)))
        | inr s ↦ rw s (h ∙ sym (other_command c (d.history) (reserved_receipt c e)))
      ];
    };
    raise_kept = λ m. record { run = λ r d h. h };
    poll_kept = λ c e r d h. h ∙ sym (other_command c (d.history) (poll_is_other c e));
    fail_kept = λ r d h. h;
    cancel_kept = λ r d h. h;
  }

  -- Behind the opening or the closing the history says whether a receipt is open, and the note has
  -- not been made yet.
  abbrev says : Bool → Assertion Unit
  says b r d = pending k d.history ≡ b

  opening : Triple tracked (attempt k Command.open_receipt) (says true) tracked IsTracked
  unfolding attempt pending
  opening = record {
    run = λ r d h. elim (Bool-cases (k.succeeds (call Command.open_receipt ∷ d.history))) [
      | inl s ↦ rw s (rw s refl)
      | inr s ↦ rw s (rw s h)
    ];
  }

  closing : Triple tracked (attempt k Command.close_receipt) (says false) tracked IsTracked
  unfolding attempt pending
  closing = record {
    run = λ r d h. elim (Bool-cases (k.succeeds (call Command.close_receipt ∷ d.history))) [
      | inl s ↦ rw s (rw s refl)
      | inr s ↦ rw s (rw s h)
    ];
  }

  noted : (b : Bool) → Triple (says b) (need_to_cancel b) tracked tracked IsTracked
  noted b = record { run = λ r d h. sym h }

  device_of-Ends : (f : Flow Unit) → Ends tracked tracked IsTracked f → IsTracked (device_of f)
  device_of-Ends (going r d) h = h
  device_of-Ends (left r d) h = h
  device_of-Ends (threw m d) h = h

  -- However the registration of a receipt ends, with success, with a failure in the result or with an
  -- exception, the device knows whether a receipt is open: its note says what the calls say, if it
  -- did before.
  pub sub_register_receipt-IsTracked :
      (settings : Settings) (type : ReceiptType) (details : ReceiptDetails) (r : Result Unit)
      (d : Device)
      → IsTracked d
      → IsTracked (device_of (sub_register_receipt k settings type details r d))
  sub_register_receipt-IsTracked settings type details r d h = device_of-Ends _ (
      (sub_register_receipt-Triple k settings tracked IsTracked tracked-Invariant (says true)
          (says false) opening (noted true) closing (noted false) type details).run
        r d h)

  abbrev ends_with : Device → Bool → History
  ends_with d is_open =
      call Command.close_device
      ∷ (if is_open then call Command.cancel_receipt ∷ d.history else d.history)

  destroy_lem : (d : Device) → (destroy d).history ≡ ends_with d d.need_to_cancel_receipt
  unfolding destroy
  destroy_lem d = ground arith

  -- The destructor behind a registration, however that ended, on a device whose note agreed with the
  -- calls before it: it closes the connection, and before that it cancels the receipt exactly when
  -- one is open.
  pub destroy-cancels :
      (settings : Settings) (type : ReceiptType) (details : ReceiptDetails) (r : Result Unit)
      (d : Device)
      → IsTracked d
      → let after = device_of (sub_register_receipt k settings type details r d) in
        (destroy after).history
        ≡ call Command.close_device
          ∷ (if pending k after.history
              then call Command.cancel_receipt ∷ after.history
              else after.history)
  destroy-cancels settings type details r d h =
      let after = device_of (sub_register_receipt k settings type details r d) in
      destroy_lem after
      ∙ ap (ends_with after) (sub_register_receipt-IsTracked settings type details r d h)
