-- ===== src/Kkm/Import/Naming.antt =====
-- No data error of the import is without a name.
use kkm_https_adapter.Base.{
  ℕ, suc, Bool, true, false, ◌||◌, Option, none, some, Bytes, is_nil, ◌≡◌, refl, err, less, Double,
  Bool-cases, inl, inr,
}
use kkm_https_adapter.Http.JsonValue.{Json, Items, nil, cons}
use kkm_https_adapter.Json.{Failure}
use kkm_https_adapter.Json.Naming.{
  IsNamed, Names, IsFaithful, Names-ok, Names-err, Names-bind, key_handled-Names, key_value-Names,
  key_filtered-Names, key_mapped-Names,
}
use kkm_https_adapter.Kkm.Import.{
  Setup, required, settled, requires_property, requires_property2, assign_details, assign_operator,
  assign_cash,
}
use kkm_https_adapter.Kkm.Import.Receipt.{items_of, assign_receipt}
use kkm_https_adapter.Kkm.Import.Receipt.Item.{
  new_item, read_item, read_items, tax_or_default, min_max_price, min_quantity,
}

pub required-Names :
    {A : Type 0} (path name : Bytes) (p : Bool × A)
    → Names (required (requires_property2 path name) p)
unfolding requires_property2
required-Names path name (true, a) = Names-ok a
required-Names path name (false, a) = Names-err _ tt

pub demanded-Names :
    {A : Type 0} (name : Bytes) (p : Bool × A) → Names (required (requires_property name) p)
unfolding requires_property
demanded-Names name (true, a) = Names-ok a
demanded-Names name (false, a) = Names-err _ tt

pub settled-Names : {A : Type 0} (p : Bool × A) → Names (settled p)
settled-Names (b, a) = Names-ok a

ruleset readings = (
  Names-bind, Names-ok, key_value-Names, key_filtered-Names, key_mapped-Names, key_handled-Names,
  settled-Names, demanded-Names, required-Names,
)

module _ (s : Setup) (f : IsFaithful s.conversions) where
  assign_operator-Names : (json : Json) → Names (assign_operator s json)
  unfolding assign_operator assign_details
  assign_operator-Names json = search readings

  assign_cash-Names : (json : Json) → Names (assign_cash s json)
  unfolding assign_cash
  assign_cash-Names json = search (readings, assign_operator-Names)

  -- Reading the details of a payment into or out of the drawer throws no data error without a name.
  pub assign_cash-IsNamed : (json : Json) (e : Failure) → assign_cash s json ≡ err e → IsNamed e
  assign_cash-IsNamed json = (assign_cash-Names json).throws

  new_item-Names :
      (name : Bytes) (price quantity : Double) (unit tax : ℕ)
      → Names (new_item s name price quantity unit tax)
  unfolding new_item
  new_item-Names name price quantity unit tax = elim (Bool-cases (is_nil name)) [
    | inl e ↦ rw e (Names-err _ refl)
    | inr e ↦ elim (Bool-cases (less price min_max_price || less s.max_price price)) [
      | inl h ↦ rw (e, h) (Names-err _ refl)
      | inr h ↦ elim (Bool-cases (less quantity min_quantity || less s.max_quantity quantity)) [
        | inl k ↦ rw (e, h, k) (Names-err _ refl)
        | inr k ↦ rw (e, h, k) (Names-ok _)
      ]
    ]
  ]

  tax_or_default-Names :
      (default : Bool × ℕ) (path : Bytes) (p : Bool × ℕ) → Names (tax_or_default s default path p)
  unfolding requires_property2
  tax_or_default-Names default path (true, tax) = Names-ok tax
  tax_or_default-Names (true, tax) path (false, other) = Names-ok tax
  tax_or_default-Names (false, tax) path (false, other) = Names-err _ tt

  read_item-Names : (default : Bool × ℕ) (i : ℕ) (json : Json) → Names (read_item s default i json)
  unfolding read_item
  read_item-Names default i json = search (readings, tax_or_default-Names, new_item-Names) depth 9

  read_items-Names :
      (default : Bool × ℕ) (i : ℕ) (js : Items) (sum : Double)
      → Names (read_items s default i js sum)
  unfolding read_items
  read_items-Names default i nil sum = Names-ok _
  read_items-Names default i (cons j js) sum =
      search (readings, read_item-Names, read_items-Names default (suc i) js)

  items_of-Names : (tax : Bool × ℕ) (sum : Double) (o : Option Items) → Names (items_of s tax sum o)
  unfolding requires_property
  items_of-Names tax sum none = Names-err _ tt
  items_of-Names tax sum (some js) = read_items-Names tax 0 js sum

  assign_receipt-Names : (json : Json) → Names (assign_receipt s json)
  unfolding assign_receipt
  assign_receipt-Names json =
      search (readings, assign_operator-Names, items_of-Names) depth 14 fits 4000

  -- Reading a receipt throws no data error without a name.
  pub assign_receipt-IsNamed :
      (json : Json) (e : Failure) → assign_receipt s json ≡ err e → IsNamed e
  assign_receipt-IsNamed json = (assign_receipt-Names json).throws
