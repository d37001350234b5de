-- ===== src/Kkm/Import/Receipt/Whole.antt =====
-- What a whole imported receipt keeps.
use kkm_https_adapter.Base.{
  ℕ, Bool, [], List, Option, none, some, utf8, ◌≡◌, refl, sym, ap, ◌∙◌, length, ok, Double, All,
}
use mathlib.Core.Path.{subst}
use kkm_https_adapter.Http.JsonValue.{Json, Items}
use kkm_https_adapter.Json.{◌>>=◌, key_handled}
use kkm_https_adapter.Json.Laws.{
  Ensures, Ensures-err, Ensures-bind, Ensures-any, Ensures-map, key_handled-Got,
}
use kkm_https_adapter.Kkm.Driver.{wide}
use kkm_https_adapter.Kkm.Details.{PrintableText, ReceiptItemDetails, ReceiptDetails}
use kkm_https_adapter.Kkm.Import.{Setup, required, requires_property}
use kkm_https_adapter.Kkm.Import.Bounds.{assign_operator-Ensures, required-Ensures, settled-Ensures}
use kkm_https_adapter.Kkm.Import.Document.{array_at}
use kkm_https_adapter.Kkm.Import.Receipt.{
  new_receipt, read_customer, read_seller, items_of, assign_receipt,
}
use kkm_https_adapter.Kkm.Import.Receipt.Payment.{read_payment}
use kkm_https_adapter.Kkm.Import.Receipt.ItemLimits.{count, IsItem, IsLimited, read_items-Ensures}
use kkm_https_adapter.Kkm.Import.Receipt.Steps.{
  HasText, IsFilled, HasInfo, IsStarted, new_receipt-IsStarted, read_customer-Got, read_seller-Got,
  text_of-Ensures, read_payment-Got,
}

module _ (s : Setup) where
  items_of-Ensures :
      IsLimited s
      → (tax : Bool × ℕ) (sum : Double) (o : Option Items)
      → Ensures
          (λ r. All (IsItem s) r.0 × ((js : Items) × (o ≡ some js) × (length r.0 ≡ count js)))
          (items_of s tax sum o)
  items_of-Ensures l tax sum none = Ensures-err _
  items_of-Ensures l tax sum (some js) =
      Ensures-map (read_items-Ensures s l tax 0 js sum) λ r k. (k.0, (js, refl, k.1))

  -- A receipt as the device takes one: the texts fit, each item keeps its limits, there are as many
  -- items as elements of "items", and the information on the payment fits its type.
  abbrev pub IsReceipt : Json → ReceiptDetails → Type 0
  IsReceipt json d =
      IsFilled d
      × HasInfo d
      × All (IsItem s) d.items
      × ((js : Items) × (array_at (utf8 "items") json ≡ some js) × (length d.items ≡ count js))

  -- An imported receipt: the operator, the customer, the seller and the texts are within their
  -- limits; each item has a title, a price and a quantity within theirs, or no numbers; there are as
  -- many items as the array has elements; an electronic payment's data come with such a payment only.
  pub assign_receipt-IsReceipt :
      (json : Json) (d : ReceiptDetails)
      → IsLimited s
      → assign_receipt s json ≡ ok d
      → IsReceipt json d
  unfolding assign_receipt
  assign_receipt-IsReceipt json d l e = made.returns d e
    where
      with_items :
          (t t1 t2 : PrintableText) (c : ReceiptDetails)
          → HasText t
          → HasText t1
          → HasText t2
          → IsStarted c
          → (r : List ReceiptItemDetails × Double)
          → All (IsItem s) r.0
            × ((js : Items) × (array_at (utf8 "items") json ≡ some js) × (length r.0 ≡ count js))
          → Ensures (IsReceipt json) (
              key_handled s.conversions (read_payment s) (utf8 "payment") [] json (record c {
                text = t;
                header_text = t1;
                footer_text = t2;
                items = r.0;
                payment_sum = r.1;
              })
              >>= required (requires_property (wide "payment")))
      with_items t t1 t2 c h h1 h2 ((o, q, m, _, _, _), n) r (k, numbered) =
          Ensures-map
            (Ensures-bind _ _
              (key_handled-Got _ s.conversions (read_payment s) (utf8 "payment") [] json
                λ j path. read_payment-Got s r.0 _ j path (((o, q, m, h, h1, h2), n), refl))
              (required-Ensures _))
            λ d p. (
              p.0,
              p.1,
              subst (All (IsItem s)) (sym p.2) k,
              (numbered.0, numbered.1, ap length p.2 ∙ numbered.2),
            )

      made : Ensures (IsReceipt json) (assign_receipt s json)
      made = Ensures-bind _ _ (assign_operator-Ensures s json) λ operator o.
          Ensures-bind _ _
            (Ensures-bind _ _
              (key_handled-Got (new_receipt operator) s.conversions (read_customer s)
                (utf8 "customer") [] json
                λ j path. read_customer-Got s _ j path (new_receipt-IsStarted operator o))
              λ p. settled-Ensures p (new_receipt-IsStarted operator o))
            λ customer c.
              Ensures-bind _ _
                (Ensures-bind _ _
                  (key_handled-Got customer s.conversions (read_seller s) (utf8 "seller") [] json
                    λ j path. read_seller-Got s customer j path c)
                  λ p. settled-Ensures p c)
                λ seller m. Ensures-bind _ _ (text_of-Ensures s _ json seller.text m.0.3) λ t h.
                  Ensures-bind _ _ (text_of-Ensures s _ json seller.header_text m.0.4) λ t1 h1.
                    Ensures-bind _ _ (text_of-Ensures s _ json seller.footer_text m.0.5) λ t2 h2.
                      Ensures-bind _ _ (Ensures-any _) λ tax _.
                        Ensures-bind _ _
                          (items_of-Ensures l tax seller.payment_sum (array_at (utf8 "items") json))
                          (with_items t t1 t2 seller h h1 h2 m)
