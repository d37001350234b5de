-- ===== src/Kkm/Receipt/Preserved.antt =====
-- The registration of a receipt keeps what the driver's calls keep, if the opening and the closing do.
use kkm_https_adapter.Base.{ℕ, true, false, not, List, [], ◌∷◌, refl, is_nil}
use kkm_https_adapter.Kkm.Driver.{WideText, Driver, Param, Command, is_positive, byte_array}
use kkm_https_adapter.Kkm.Details.{
  pos, negsuc, ReceiptDetails, ReceiptItemDetails, ReceiptType, has_content, auto, pre, post,
}
use kkm_https_adapter.Kkm.Method.{Device, attempt, need_to_cancel}
use kkm_https_adapter.Kkm.Method.Laws.{
  Assertion, Triple, Invariant, >>-Triple, when-Triple, asking-Triple, is_reserved,
}
use kkm_https_adapter.Kkm.Reports.{Settings}
use kkm_https_adapter.Kkm.Preservation.{
  proceed-Triple, sub_print_separator-Triple, sub_print_text-Triple, sub_set_operator-Triple,
  sub_check_document_closed-Triple,
}
use kkm_https_adapter.Kkm.Receipt.{
  put_text, form_tlv, has_requisite_1256, sub_set_customer, sub_set_seller, register_item,
  register_items, register_payment, is_sale, type_title, top_separator, open_receipt,
  print_receipt_texts, close_receipt, sub_register_receipt,
}

module _ (k : Driver) (settings : Settings) (p : Assertion Unit) (x : Device → Type 0)
    (i : Invariant k p x) where
  put_text-Triple : (tag : ℕ) (t : WideText) → Triple p (put_text tag t) p p x
  put_text-Triple tag t = when-Triple (not (is_nil t)) (i.put_kept _ _)

  form_tlv-Triple : (tag : ℕ) → Triple p (form_tlv k tag) p p x
  unfolding is_reserved
  form_tlv-Triple tag = >>-Triple (i.demand_kept Command.util_form_tlv refl) (
      asking-Triple (λ h. k.get_byte_array h Param.tag_value)
        (λ info. i.put_kept (Param.requisite tag) (byte_array info)))

  sub_set_customer-Triple :
      (details : ReceiptDetails) → Triple p (sub_set_customer k settings details) p p x
  unfolding sub_set_customer
  sub_set_customer-Triple details = >>-Triple (put_text-Triple 1227 _) (
      >>-Triple (put_text-Triple 1228 _) (
        >>-Triple (put_text-Triple 1243 _) (
          >>-Triple (put_text-Triple 1244 _) (
            >>-Triple (put_text-Triple 1245 _) (
              >>-Triple (put_text-Triple 1246 _) (
                >>-Triple (put_text-Triple 1254 _) (
                  >>-Triple (when-Triple (has_requisite_1256 details) (form_tlv-Triple 1256)) (
                    >>-Triple
                      (when-Triple (not (is_nil details.customer_account)) (
                        >>-Triple (i.put_kept _ _)
                          (>>-Triple (i.put_kept _ _) (form_tlv-Triple 1084))))
                      (>>-Triple (put_text-Triple 1227 _)
                        (>>-Triple (put_text-Triple 1228 _) (put_text-Triple 1008 _)))))))))))

  sub_set_seller-Triple : (details : ReceiptDetails) → Triple p (sub_set_seller details) p p x
  unfolding sub_set_seller
  sub_set_seller-Triple details = when-Triple (not (is_nil details.customer_inn)) (i.put_kept _ _)

  register_item-Triple : (item : ReceiptItemDetails) → Triple p (register_item k item) p p x
  unfolding register_item is_reserved
  register_item-Triple item = >>-Triple (i.put_kept _ _) (
      >>-Triple (i.put_kept _ _) (
        >>-Triple (i.put_kept _ _) (
          >>-Triple (i.put_kept _ _)
            (>>-Triple (i.put_kept _ _) (i.attempt_kept Command.registration refl)))))

  register_items-Triple :
      (items : List ReceiptItemDetails) → Triple p (register_items k items) p p x
  unfolding register_items
  register_items-Triple [] = proceed-Triple k settings p x i
  register_items-Triple (item ∷ items) =
      >>-Triple (register_item-Triple item) (register_items-Triple items)

  register_payment-Triple : (details : ReceiptDetails) → Triple p (register_payment k details) p p x
  unfolding register_payment is_reserved
  register_payment-Triple details = when-Triple (is_positive details.payment_sum) (
      >>-Triple (i.put_kept _ _) (
        >>-Triple (i.put_kept _ _) (
          >>-Triple (i.attempt_kept Command.payment refl) (
            when-Triple details.electro_payment_info (
              >>-Triple (i.put_kept _ _) (
                >>-Triple (i.put_kept _ _) (
                  >>-Triple (i.put_kept _ _) (
                    >>-Triple (i.put_kept _ _) (
                      >>-Triple
                        (when-Triple (not (is_nil details.electro_payment_add_info))
                          (i.put_kept _ _))
                        (i.attempt_kept Command.payment refl))))))))))

  print_receipt_texts-Triple :
      (type : ReceiptType) (details : ReceiptDetails)
      → Triple p (print_receipt_texts k settings type details) p p x
  unfolding print_receipt_texts
  print_receipt_texts-Triple type details =
      let text = sub_print_text-Triple k settings p x i in
      let line = sub_print_separator-Triple k settings p x i (pos 0) (negsuc 0) in
      >>-Triple (when-Triple (has_content details.text) (text details.text auto)) (
        >>-Triple (when-Triple (top_separator details.text) line) (
          >>-Triple (text (type_title type) auto) (
            >>-Triple line
              (when-Triple (has_content details.footer_text) (text details.footer_text post)))))

  -- `q` stands between the opening's command and its note, `s` between those of the closing.
  module _ (q s : Assertion Unit) (opening : Triple p (attempt k Command.open_receipt) q p x)
      (opened : Triple q (need_to_cancel true) p p x)
      (closing : Triple p (attempt k Command.close_receipt) s p x)
      (closed : Triple s (need_to_cancel false) p p x) where
    open_receipt-Triple :
        (type : ReceiptType) (details : ReceiptDetails)
        → Triple p (open_receipt k settings type details) q p x
    unfolding open_receipt
    open_receipt-Triple type details =
        >>-Triple
          (when-Triple (has_content details.header_text)
            (sub_print_text-Triple k settings p x i details.header_text pre))
          (>>-Triple (sub_set_operator-Triple k settings p x i details.operator) (
            >>-Triple
              (when-Triple details.customer_data_is_present (sub_set_customer-Triple details))
              (>>-Triple
                (when-Triple details.seller_data_is_present (sub_set_seller-Triple details))
                (>>-Triple (i.put_kept _ _) (>>-Triple (i.put_kept _ _) opening)))))

    close_receipt-Triple :
        (details : ReceiptDetails) → Triple p (close_receipt k settings details) s p x
    unfolding close_receipt
    close_receipt-Triple details = >>-Triple (i.put_kept _ _) closing

    pub sub_register_receipt-Triple :
        (type : ReceiptType) (details : ReceiptDetails)
        → Triple p (sub_register_receipt k settings type details) p p x
    unfolding sub_register_receipt
    sub_register_receipt-Triple type details =
        >>-Triple (when-Triple (not (is_sale type)) (i.raise_kept _)) (
          >>-Triple (when-Triple (is_nil details.items) (i.raise_kept _)) (
            >>-Triple (open_receipt-Triple type details) (
              >>-Triple opened (
                >>-Triple (print_receipt_texts-Triple type details) (
                  >>-Triple (register_items-Triple details.items) (
                    >>-Triple (register_payment-Triple details) (
                      >>-Triple (close_receipt-Triple details) (
                        >>-Triple closed (sub_check_document_closed-Triple k settings p x i)))))))))
