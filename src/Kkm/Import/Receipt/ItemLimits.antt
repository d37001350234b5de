-- ===== src/Kkm/Import/Receipt/ItemLimits.antt =====
-- What the items of an imported receipt keep.
use kkm_https_adapter.Base.{
  ℕ, suc, Bool, false, [], Bytes, utf8, ◌||◌, ◌≡◌, refl, length, Double, is_nan, less, Bool-cases,
  inl, inr, All, is_nil, ap,
}
use kkm_https_adapter.Text.Limits.{IsWithin, IsWithin-of_not_outside}
use kkm_https_adapter.Http.JsonValue.{Json, Items, nil, cons}
use kkm_https_adapter.Json.Laws.{Ensures, Ensures-err, Ensures-ok, Ensures-bind, Ensures-any}
use kkm_https_adapter.Kkm.Details.{ReceiptItemDetails}
use kkm_https_adapter.Kkm.Import.{Setup}
use kkm_https_adapter.Kkm.Import.Document.{element_path}
use kkm_https_adapter.Kkm.Import.Bounds.{IsTitle, text_at-IsTitle, required-Ensures}
use kkm_https_adapter.Kkm.Import.Receipt.Item.{
  new_item, read_item, read_items, min_max_price, min_quantity,
}

abbrev pub count : Items → ℕ
count nil = 0
count (cons j js) = suc (count js)

module _ (s : Setup) where
  -- What an item of a receipt keeps: its title, its price and its quantity.
  pub record IsItem (d : ReceiptItemDetails) : Type 0 where
    pub titled : IsTitle 128 d.commodity_name
    pub priced : IsWithin min_max_price s.max_price d.price
    pub measured : IsWithin min_quantity s.max_quantity d.quantity

  -- The limits of the settings are numbers.
  pub record IsLimited : Type 0 where
    pub price : is_nan s.max_price ≡ false
    pub quantity : is_nan s.max_quantity ≡ false

  new_item-IsItem :
      IsLimited
      → (name : Bytes) (price quantity : Double) (unit tax : ℕ) → IsTitle 128 name
      → Ensures IsItem (new_item s name price quantity unit tax)
  unfolding new_item
  new_item-IsItem l name price quantity unit tax t = elim (Bool-cases (is_nil name)) [
    | inl e ↦ rw e (Ensures-err _)
    | inr e ↦ elim (Bool-cases (less price min_max_price || less s.max_price price)) [
      | inl h ↦ rw (e, h) (Ensures-err _)
      | inr h ↦ elim (Bool-cases (less quantity min_quantity || less s.max_quantity quantity)) [
        | inl k ↦ rw (e, h, k) (Ensures-err _)
        | inr k ↦
            rw (e, h, k)
              (Ensures-ok _ (record {
                titled = t;
                priced = IsWithin-of_not_outside min_max_price s.max_price price refl l.price h;
                measured =
                    IsWithin-of_not_outside min_quantity s.max_quantity quantity refl l.quantity k;
              }))
      ]
    ]
  ]

  pub read_item-IsItem :
      IsLimited
      → (default : Bool × ℕ) (i : ℕ) (json : Json) → Ensures IsItem (read_item s default i json)
  unfolding read_item
  read_item-IsItem l default i json =
      Ensures-bind _ _
        (Ensures-bind _ _
          (text_at-IsTitle s (utf8 "title") (element_path (utf8 "items") i) json 128 [])
          (required-Ensures _))
        λ title t. Ensures-bind _ _ (Ensures-any _) λ price _.
          Ensures-bind _ _ (Ensures-any _) λ quantity _. Ensures-bind _ _ (Ensures-any _) λ unit _.
            Ensures-bind _ _ (Ensures-any _)
              λ tax _. new_item-IsItem l title price quantity unit tax t

  pub read_items-Ensures :
      IsLimited
      → (default : Bool × ℕ) (i : ℕ) (js : Items) (sum : Double)
      → Ensures (λ r. All IsItem r.0 × (length r.0 ≡ count js)) (read_items s default i js sum)
  unfolding read_items
  read_items-Ensures l default i nil sum = Ensures-ok _ (tt, refl)
  read_items-Ensures l default i (cons j js) sum =
      Ensures-bind _ _ (read_item-IsItem l default i j) λ first f.
        Ensures-bind _ _ (read_items-Ensures l default (suc i) js _)
          λ rest r. Ensures-ok _ ((f, r.0), ap suc r.1)
