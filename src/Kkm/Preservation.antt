-- ===== src/Kkm/Preservation.antt =====
-- Every method of the device keeps what the driver's calls keep.
use kkm_https_adapter.Base.{
  Double, ℕ, zero, suc, Bool, true, false, not, ◌&&◌, ◌||◌, ◌==◌, ◌∷◌, ◌≡◌, refl, Bool-cases, inl,
  inr, is_nil,
}
use kkm_https_adapter.Kkm.Driver.{WideText, Driver, Param, Command, Constant, call, is_positive}
use kkm_https_adapter.Kkm.Results.{Result}
use kkm_https_adapter.Kkm.Details.{
  ℤ, negsuc, PrintableText, TextPosition, OperatorDetails, CloseDetails,
}
use kkm_https_adapter.Kkm.Method.{Device, proceed, when, issue, invoke}
use kkm_https_adapter.Kkm.Method.Laws.{
  Assertion, Triple, Ends, Invariant, >>-Triple, when-Triple, invoke-Triple, asking-Triple,
  if-Triple, is_reserved, is_poll,
}
use kkm_https_adapter.Kkm.Printing.{
  sub_print_separator, sub_print_text, print_text, add_separator, add_separators, add_margins,
}
use kkm_https_adapter.Kkm.Reports.{
  Settings, poll, attempts, sub_check_document_closed, sub_set_operator, continue_printing, checked,
}
use kkm_https_adapter.Kkm.Shift.{
  pay_out, close_unless_closed, sub_cash_out, sub_close_shift, close_shift, report_x, reset_state,
}

module _ {A : Type 0} (k : Driver) (settings : Settings) (p : Assertion A) (x : Device → Type 0)
    (i : Invariant k p x) where
  pub proceed-Triple : Triple p proceed p p x
  proceed-Triple = record { run = λ r d h. h }

  pub sub_print_separator-Triple : (a b : ℤ) → Triple p (sub_print_separator k a b) p p x
  unfolding sub_print_separator is_reserved
  sub_print_separator-Triple a b = record {
    run = λ r d.
        (>>-Triple (i.put_kept _ _) (
            >>-Triple (i.put_kept _ _)
              (>>-Triple (i.put_kept _ _) (i.demand_kept Command.print_text refl)))).run
          r d;
  }

  print_text-Triple :
      (t : WideText) (c m : Bool) (o : TextPosition) → Triple p (print_text k t c m o) p p x
  unfolding is_reserved
  print_text-Triple t c m o = >>-Triple (when-Triple m (i.put_kept _ _)) (
      >>-Triple (when-Triple c (i.put_kept _ _)) (
        >>-Triple (i.put_kept _ _) (
          >>-Triple (i.put_kept _ _)
            (>>-Triple (i.put_kept _ _) (i.demand_kept Command.print_text refl)))))

  pub sub_print_text-Triple :
      (t : PrintableText) (o : TextPosition) → Triple p (sub_print_text k t o) p p x
  unfolding sub_print_text
  sub_print_text-Triple t o = record {
    run = λ r d.
        (if-Triple (is_nil t.content)
            (if-Triple t.separated
              (print_text-Triple (add_separator d.line_length t.margin_outer t.margin_inner) true
                false o)
              proceed-Triple)
            (if-Triple (t.separated && not t.magnified)
              (print_text-Triple
                (add_separators d.line_length t.content t.margin_outer t.margin_inner) t.center
                t.magnified o)
              (print_text-Triple (add_margins t.content t.margin_inner (negsuc 0)) t.center
                t.magnified o))).run
          r d;
  }

  pub sub_set_operator-Triple :
      (details : OperatorDetails) → Triple p (sub_set_operator k settings details) p p x
  unfolding sub_set_operator is_reserved
  sub_set_operator-Triple details = >>-Triple (i.put_kept _ _) (
      >>-Triple (when-Triple (not (is_nil details.operator_inn)) (i.put_kept _ _))
        (i.demand_kept Command.operator_login refl))

  poll_keeps :
      (c : Command) (n : ℕ)
      → is_poll c ≡ true
      → (r : Result A) (d : Device) → p r d
      → p r (poll k c n d).1
  unfolding poll
  poll_keeps c zero e r d h = i.poll_kept c e r d h
  poll_keeps c (suc n) e r d h = elim (Bool-cases (k.succeeds (call c ∷ d.history))) [
    | inl s ↦ rw s (i.poll_kept c e r d h)
    | inr s ↦ rw s (poll_keeps c n e r (issue (call c) d) (i.poll_kept c e r d h))
  ]

  continue_printing-Ends :
      (r : Result A) (d : Device) → p r d → Ends p p x (continue_printing k settings r d)
  unfolding is_poll
  continue_printing-Ends r d h =
      let e = (poll k Command.continue_print (attempts settings) d).1 in
      let kept = poll_keeps Command.continue_print (attempts settings) refl r d h in
      elim (Bool-cases ((poll k Command.continue_print (attempts settings) d).0 == 0)) [
        | inl s ↦ rw s (i.fail_kept r e kept)
        | inr s ↦ rw s kept
      ]

  checked-Ends : (n : ℕ) (r : Result A) (d : Device) → p r d → Ends p p x (checked k settings n r d)
  checked-Ends n r d h =
      elim (Bool-cases ((n == 0) || not (k.get_bool (d.history) Param.document_closed))) [
        | inl s ↦ rw s (i.cancel_kept r d h)
        | inr s ↦ elim (Bool-cases (not (k.get_bool (d.history) Param.document_printed))) [
          | inl t ↦ rw (s, t) (continue_printing-Ends r d h)
          | inr t ↦ rw (s, t) h
        ]
      ]

  pub sub_check_document_closed-Triple : Triple p (sub_check_document_closed k settings) p p x
  unfolding sub_check_document_closed is_poll
  sub_check_document_closed-Triple = record {
    run = λ r d h.
        checked-Ends (poll k Command.check_document_closed (attempts settings) d).0 r
          (poll k Command.check_document_closed (attempts settings) d).1
          (poll_keeps Command.check_document_closed (attempts settings) refl r d h);
  }

module _ (k : Driver) (settings : Settings) (p : Assertion Unit) (x : Device → Type 0)
    (i : Invariant k p x) where
  pay_out-Triple :
      (details : OperatorDetails) (sum : Double) → Triple p (pay_out k settings details sum) p p x
  unfolding is_reserved
  pay_out-Triple details sum = when-Triple (is_positive sum) (
      >>-Triple (sub_set_operator-Triple k settings p x i details) (
        >>-Triple (i.put_kept _ _)
          (>>-Triple (i.put_kept _ _) (i.attempt_kept Command.cash_outcome refl))))

  pub sub_cash_out-Triple :
      (details : OperatorDetails) → Triple p (sub_cash_out k settings details) p p x
  unfolding sub_cash_out is_reserved
  sub_cash_out-Triple details = >>-Triple (i.put_kept _ _) (
      >>-Triple (i.attempt_kept Command.query_data refl)
        (asking-Triple (λ h. k.get_double h Param.sum) (pay_out-Triple details)))

  close_unless_closed-Triple :
      (details : OperatorDetails) (closed : Bool)
      → Triple p (close_unless_closed k settings details closed) p p x
  unfolding is_reserved
  close_unless_closed-Triple details closed = when-Triple (not closed) (
      >>-Triple (sub_set_operator-Triple k settings p x i details) (
        >>-Triple (i.put_kept _ _) (
          >>-Triple (i.attempt_kept Command.report refl)
            (sub_check_document_closed-Triple k settings p x i))))

  pub sub_close_shift-Triple :
      (details : OperatorDetails) → Triple p (sub_close_shift k settings details) p p x
  unfolding sub_close_shift is_reserved
  sub_close_shift-Triple details = >>-Triple (i.put_kept _ _) (
      >>-Triple (i.attempt_kept Command.query_data refl) (
        asking-Triple (λ h. k.get_int h Param.shift_state == k.value_of Constant.ss_closed)
          (close_unless_closed-Triple details)))

  cash_out_if-Triple :
      (b : Bool) (details : OperatorDetails)
      → Triple p (when b (invoke (sub_cash_out k settings details))) p p x
  cash_out_if-Triple b details = when-Triple b (invoke-Triple (sub_cash_out-Triple details))

  close_shift_if-Triple :
      (b : Bool) (details : OperatorDetails)
      → Triple p (when b (invoke (sub_close_shift k settings details))) p p x
  close_shift_if-Triple b details = when-Triple b (invoke-Triple (sub_close_shift-Triple details))

  pub close_shift-Triple :
      (details : CloseDetails) → Triple p (close_shift k settings details) p p x
  unfolding close_shift
  close_shift-Triple details =
      >>-Triple (cash_out_if-Triple details.cash_out details.operator)
        (invoke-Triple (sub_close_shift-Triple details.operator))

  pub report_x-Triple : (details : CloseDetails) → Triple p (report_x k settings details) p p x
  unfolding report_x is_reserved
  report_x-Triple details = >>-Triple (cash_out_if-Triple details.cash_out details.operator) (
      >>-Triple (close_shift_if-Triple details.close_shift details.operator)
        (>>-Triple (i.put_kept _ _) (i.attempt_kept Command.report refl)))

  pub reset_state-Triple :
      (details : CloseDetails) → Triple p (reset_state k settings details) p p x
  unfolding reset_state is_reserved
  reset_state-Triple details = >>-Triple (i.put_kept _ _) (
      >>-Triple (i.attempt_kept Command.query_data refl) (
        >>-Triple
          (asking-Triple (λ h. k.get_int h Param.receipt_type == k.value_of Constant.rt_closed)
            (λ closed. when-Triple (not closed) (i.attempt_kept Command.cancel_receipt refl)))
          (>>-Triple (cash_out_if-Triple details.cash_out details.operator)
            (close_shift_if-Triple details.close_shift details.operator))))
