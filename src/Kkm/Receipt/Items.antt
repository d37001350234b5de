-- ===== src/Kkm/Receipt/Items.antt =====
-- The items of a receipt as the driver gets them.
use kkm_https_adapter.Base.{Bool, true, false, ◌&&◌, List, [], ◌∷◌, ◌≡◌, refl, Bool-cases, inl, inr}
use kkm_https_adapter.Kkm.Driver.{
  Driver, Param, Command, History, call, set_param, text, double, number,
}
use kkm_https_adapter.Kkm.Results.{Result}
use kkm_https_adapter.Kkm.Details.{ReceiptItemDetails}
use kkm_https_adapter.Kkm.Method.{Device, Flow, going, attempt}
use kkm_https_adapter.Kkm.Receipt.{register_item, register_items}

-- The history behind the registration of an item.
abbrev pub with_item : ReceiptItemDetails → History → History
with_item item h =
    call Command.registration
    ∷ set_param Param.tax_type (number item.tax)
    ∷ set_param Param.measurement_unit (number item.unit)
    ∷ set_param Param.quantity (double item.quantity)
    ∷ set_param Param.price (double item.price)
    ∷ set_param Param.commodity_name (text item.commodity_name)
    ∷ h

abbrev pub with_items : List ReceiptItemDetails → History → History
with_items [] h = h
with_items (item ∷ items) h = with_items items (with_item item h)

-- All the registrations of these items succeed behind this history.
abbrev pub all_registered : Driver → List ReceiptItemDetails → History → Bool
all_registered k [] h = true
all_registered k (item ∷ items) h =
    k.succeeds (with_item item h) && all_registered k items (with_item item h)

abbrev pub at_history : Device → History → Device
at_history d h = record d { history = h }

abbrev pub goes_on : {A : Type 0} → Flow A → Bool
goes_on (going r d) = true
goes_on _ = false

-- When every registration succeeds, the items reach the driver in the order of the receipt, each with
-- its name, price, quantity, unit and tax set in front of its registration, and nothing else
-- happens.
pub register_items_lem :
    (k : Driver) (items : List ReceiptItemDetails) (r : Result Unit) (d : Device)
    → all_registered k items d.history ≡ true
    → register_items k items r d ≡ going r (at_history d (with_items items d.history))
unfolding register_items register_item attempt
register_items_lem k [] r d h = refl
register_items_lem k (item ∷ items) r d h =
    elim (Bool-cases (k.succeeds (with_item item d.history))) [
      | inl s ↦
          rw s (register_items_lem k items r (at_history d (with_item item d.history)) (rw s at h))
      | inr s ↦ let e : false ≡ true = rw s at h in cc
    ]

-- When one of them fails, the method is left: no payment is made and the receipt is not closed.
pub register_items-stops :
    (k : Driver) (items : List ReceiptItemDetails) (r : Result Unit) (d : Device)
    → all_registered k items d.history ≡ false
    → goes_on (register_items k items r d) ≡ false
unfolding register_items register_item attempt
register_items-stops k [] r d h = cc
register_items-stops k (item ∷ items) r d h =
    elim (Bool-cases (k.succeeds (with_item item d.history))) [
      | inl s ↦
          rw s
            (register_items-stops k items r (at_history d (with_item item d.history)) (rw s at h))
      | inr s ↦ rw s refl
    ]
