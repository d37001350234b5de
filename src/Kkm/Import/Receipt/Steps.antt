-- ===== src/Kkm/Import/Receipt/Steps.antt =====
-- What the steps of the import of a receipt keep.
use kkm_https_adapter.Base.{
  ℕ, Bool, true, false, [], List, Bytes, utf8, ◌≡◌, refl, ◌∙◌, ok, Double, inl, inr, ◌⊎◌, arith,
  if◌then◌else◌,
}
use kkm_https_adapter.Http.JsonValue.{Json}
use kkm_https_adapter.Json.{◌>>=◌, key_handled}
use kkm_https_adapter.Json.Laws.{
  Ensures, Got, taken, kept, Ensures-ok, Ensures-bind, Ensures-any, key_handled-Got,
}
use kkm_https_adapter.Kkm.Details.{
  OperatorDetails, PrintableText, ReceiptItemDetails, ReceiptDetails, PaymentType, cash,
  electronically,
}
use kkm_https_adapter.Kkm.Import.{Setup, settled}
use kkm_https_adapter.Kkm.Import.Bounds.{
  HasLength, IsOperator, required-Ensures, settled-Ensures, text_at-max, text_at-between,
}
use kkm_https_adapter.Kkm.Import.Document.{max_text_length}
use kkm_https_adapter.Kkm.Import.Receipt.{
  new_receipt, limited, read_customer, read_seller, read_text, text_of,
}
use kkm_https_adapter.Kkm.Import.Receipt.Payment.{
  read_payment, read_electro, read_sum, with_info, is_electronic,
}

-- The customer's data fit into the requisites of the document.
abbrev pub IsCustomer : ReceiptDetails → Type 0
IsCustomer d =
    HasLength 0 32 d.customer_account
    × HasLength 0 64 d.customer_contact
    × HasLength 0 256 d.customer_name
    × HasLength 0 12 d.customer_inn
    × HasLength 0 10 d.customer_birthdate
    × HasLength 0 3 d.customer_citizenship
    × HasLength 0 32 d.customer_document_code
    × HasLength 0 64 d.customer_document_data
    × HasLength 0 256 d.customer_address

abbrev pub HasText : PrintableText → Type 0
HasText t = HasLength 0 max_text_length t.content

-- The operator, the customer, the seller and the texts are within their limits.
abbrev pub IsFilled : ReceiptDetails → Type 0
IsFilled d =
    IsOperator d.operator
    × IsCustomer d
    × HasLength 0 64 d.seller_email
    × HasText d.text
    × HasText d.header_text
    × HasText d.footer_text

-- The information on an electronic payment comes with such a payment only, and has an identifier.
abbrev pub HasInfo : ReceiptDetails → Type 0
HasInfo d =
    (d.electro_payment_info ≡ false)
    ⊎ ((d.payment_type ≡ electronically) × HasLength 1 256 d.electro_payment_id)

abbrev pub IsStarted : ReceiptDetails → Type 0
IsStarted d = IsFilled d × (d.electro_payment_info ≡ false)

-- What the payment adds to a receipt that is filled.
abbrev pub IsPaid : List ReceiptItemDetails → ReceiptDetails → Type 0
IsPaid items d = IsFilled d × HasInfo d × (d.items ≡ items)

empty : (hi : ℕ) → HasLength 0 hi []
empty hi = (omega arith, omega arith)

pub new_receipt-IsStarted : (o : OperatorDetails) → IsOperator o → IsStarted (new_receipt o)
new_receipt-IsStarted o h = (
  (
    h,
    (empty 32, empty 64, empty 256, empty 12, empty 10, empty 3, empty 32, empty 64, empty 256),
    empty 64,
    empty 512,
    empty 512,
    empty 512,
  ),
  refl,
)

module _ (s : Setup) where
  limited-Ensures :
      (hi : ℕ) (key path : Bytes) (json : Json) (a : Bytes)
      → HasLength 0 hi a
      → Ensures (HasLength 0 hi) (limited s hi key path json a)
  limited-Ensures hi key path json a h =
      Ensures-bind _ _ (text_at-max s key path json hi a) λ p. settled-Ensures p h

  pub read_customer-Got :
      (d : ReceiptDetails) (json : Json) (path : Bytes)
      → IsStarted d
      → Ensures (Got d IsStarted) (read_customer s json path d)
  unfolding read_customer
  read_customer-Got d json path ((o, c, m, t, t1, t2), k) =
      Ensures-bind _ _ (limited-Ensures 32 _ _ _ _ c.0) λ account a0.
        Ensures-bind _ _ (limited-Ensures 64 _ _ _ _ c.1) λ contact a1.
          Ensures-bind _ _ (limited-Ensures 256 _ _ _ _ c.2) λ name a2.
            Ensures-bind _ _ (limited-Ensures 12 _ _ _ _ c.3) λ inn a3.
              Ensures-bind _ _ (limited-Ensures 10 _ _ _ _ c.4) λ birthdate a4.
                Ensures-bind _ _ (limited-Ensures 3 _ _ _ _ c.5) λ citizenship a5.
                  Ensures-bind _ _ (limited-Ensures 32 _ _ _ _ c.6) λ code a6.
                    Ensures-bind _ _ (limited-Ensures 64 _ _ _ _ c.7) λ document a7.
                      Ensures-bind _ _ (limited-Ensures 256 _ _ _ _ c.8) λ address a8.
                        Ensures-ok _
                          (taken _ ((o, (a0, a1, a2, a3, a4, a5, a6, a7, a8), m, t, t1, t2), k))

  pub read_seller-Got :
      (d : ReceiptDetails) (json : Json) (path : Bytes)
      → IsStarted d
      → Ensures (Got d IsStarted) (read_seller s json path d)
  unfolding read_seller
  read_seller-Got d json path ((o, c, m, t, t1, t2), k) =
      Ensures-bind _ _ (limited-Ensures 64 _ _ _ _ m)
        λ email a. Ensures-ok _ (taken _ ((o, c, a, t, t1, t2), k))

  read_text-Got :
      (t : PrintableText) (json : Json) (path : Bytes)
      → HasText t
      → Ensures (Got t HasText) (read_text s json path t)
  unfolding read_text
  read_text-Got t json path h =
      Ensures-bind _ _
        (Ensures-bind _ _ (text_at-between s (utf8 "content") path json 1 512 t.content) (shown h))
        λ content a. Ensures-bind _ _ (Ensures-any _) λ center _.
          Ensures-bind _ _ (Ensures-any _)
            λ magnified _. Ensures-bind _ _ (Ensures-any _) λ separated _. Ensures-ok _ (taken _ a)
    where
      shown :
          {a : Bytes}
          → HasLength 0 512 a
          → (p : Bool × Bytes) → Got a (HasLength 1 512) p
          → Ensures (HasLength 0 512) (settled p)
      shown h (b, v) (taken w k) = Ensures-ok v (omega arith, k.1)
      shown h (b, v) kept = Ensures-ok v h

  pub text_of-Ensures :
      (key : Bytes) (json : Json) (t : PrintableText)
      → HasText t
      → Ensures HasText (text_of s key json t)
  text_of-Ensures key json t h =
      Ensures-bind _ _
        (key_handled-Got t s.conversions (read_text s) key [] json
          λ j path. read_text-Got t j path h)
        λ p. settled-Ensures p h

  read_electro-Got :
      (items : List ReceiptItemDetails) (d : ReceiptDetails) (json : Json) (path : Bytes)
      → IsFilled d × (d.items ≡ items)
      → Ensures
          (Got d λ e.
            IsFilled e
            × HasLength 1 256 e.electro_payment_id
            × (e.items ≡ items)
            × (e.payment_type ≡ d.payment_type))
          (read_electro s json path d)
  unfolding read_electro
  read_electro-Got items d json path (h, k) = Ensures-bind _ _ (Ensures-any _) λ method _.
      Ensures-bind _ _
        (Ensures-bind _ _ (text_at-between s (utf8 "id") path json 1 256 d.electro_payment_id)
          (required-Ensures _))
        λ id i. Ensures-bind _ _ (Ensures-any _) λ info _. Ensures-ok _ (taken _ (h, i, k, refl))

  info-IsPaid :
      (items : List ReceiptItemDetails) (d : ReceiptDetails) (p : Bool × ReceiptDetails)
      → IsFilled d × (d.items ≡ items)
      → d.payment_type ≡ electronically
      → Got d
          (λ e.
            IsFilled e
            × HasLength 1 256 e.electro_payment_id
            × (e.items ≡ items)
            × (e.payment_type ≡ d.payment_type))
          p
      → IsPaid items (with_info s p)
  info-IsPaid items d (b, e) h t (taken v k) = (k.0, inr (k.3 ∙ t, k.1), k.2)
  info-IsPaid items d (b, e) h t kept = (h.0, inl refl, h.1)

  pub read_payment-Got :
      (items : List ReceiptItemDetails) (d : ReceiptDetails) (json : Json) (path : Bytes)
      → IsStarted d × (d.items ≡ items)
      → Ensures (Got d (IsPaid items)) (read_payment s json path d)
  unfolding read_payment
  read_payment-Got items d json path ((h, n), k) = Ensures-bind _ _ (Ensures-any _) λ text _.
      Ensures-bind _ _ (Ensures-any (read_sum s path text))
        λ sum _. Ensures-bind _ _ (Ensures-any _) λ type _. by_type sum type
    where
      paid : Double → PaymentType → ReceiptDetails
      paid sum type = record d { payment_sum = sum; payment_type = type }

      by_type :
          (sum : Double) (type : PaymentType)
          → Ensures (Got d (IsPaid items)) (
              if is_electronic type
              then (key_handled s.conversions
                    (read_electro s)
                    (utf8 "electroPaymentInfo")
                    []
                    json
                    (paid sum type)
                  >>= λ p. ok (true, with_info s p))
              else ok (true, paid sum type))
      by_type sum cash = Ensures-ok _ (taken _ (h, inl n, k))
      by_type sum electronically =
          Ensures-bind _ _
            (key_handled-Got (paid sum electronically) s.conversions (read_electro s)
              (utf8 "electroPaymentInfo") [] json λ j at. read_electro-Got items _ j at (h, k))
            λ p g.
              Ensures-ok _ (taken _ (info-IsPaid items (paid sum electronically) p (h, k) refl g))
