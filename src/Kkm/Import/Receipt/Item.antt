-- ===== src/Kkm/Import/Receipt/Item.antt =====
-- The items of a receipt: the loop of `assign` to `ReceiptDetails` in src/library/kkm/impex.cpp, and
-- the constructor of `ReceiptItemDetails` in src/library/kkm/callparams.h.
use kkm_https_adapter.Base.{
  ℕ, suc, Bool, true, false, ◌||◌, List, [], ◌∷◌, Bytes, utf8, is_nil, if◌then◌else◌, ok, err,
  Double, less, invalid_data,
}
use kkm_https_adapter.Text.Number.{decimal}
use kkm_https_adapter.Text.Filters.{length_over, trim_over}
use kkm_https_adapter.Text.Limits.{between}
use kkm_https_adapter.Http.JsonValue.{Json, Items, nil, cons}
use kkm_https_adapter.Json.{
  Read, ◌>>=◌, data_error, to_text, to_wide_text, to_double, key_filtered, key_mapped,
}
use kkm_https_adapter.Kkm.Driver.{wide}
use kkm_https_adapter.Kkm.Details.{ReceiptItemDetails}
use kkm_https_adapter.Kkm.Tables.{piece, no, tax_cast_map, measurement_unit_map}
use kkm_https_adapter.Kkm.Import.{Setup, required, settled, requires_property2, text_at, double_at}
use kkm_https_adapter.Kkm.Import.Document.{element_path}

-- 0.01, 1 and 0.001.
abbrev pub min_price : Double
min_price = 0x3f847ae147ae147b

abbrev pub min_max_price : Double
min_max_price = 0x3ff0000000000000

abbrev pub min_quantity : Double
min_quantity = 0x3f50624dd2f1a9fc

module _ (s : Setup) where
  -- The constructor of `ReceiptItemDetails`.
  unfoldable pub new_item : Bytes → Double → Double → ℕ → ℕ → Read ReceiptItemDetails
  unfolding less
  new_item commodity_name price quantity unit tax =
      if is_nil commodity_name
      then err (data_error invalid_data (wide "commodityName"))
      else if less price min_max_price || less s.max_price price
      then err (data_error invalid_data (wide "price"))
      else if less quantity min_quantity || less s.max_quantity quantity
      then err (data_error invalid_data (wide "quantity"))
      else ok (record {
        commodity_name = commodity_name;
        price = price;
        quantity = quantity;
        unit = unit;
        tax = tax;
      })

  abbrev pub tax_or_default : Bool × ℕ → Bytes → Bool × ℕ → Read ℕ
  tax_or_default default path (true, tax) = ok tax
  tax_or_default (true, tax) path (false, other) = ok tax
  tax_or_default (false, tax) path (false, other) = err (requires_property2 path (wide "tax"))

  -- One item, over the default tax and its presence.
  unfoldable pub read_item : Bool × ℕ → ℕ → Json → Read ReceiptItemDetails
  unfolding key_filtered key_mapped to_text to_wide_text to_double length_over trim_over between
      requires_property2 decimal measurement_unit_map tax_cast_map new_item
  read_item default i item = do
    let path = element_path (utf8 "items") i
    title ←
        text_at s (length_over 1 128 (trim_over ok)) (utf8 "title") path item []
        >>= required (requires_property2 path (wide "title"))
    price ←
        double_at s min_price s.max_price (utf8 "price") path item 0
        >>= required (requires_property2 path (wide "price"))
    quantity ←
        double_at s min_quantity s.max_quantity (utf8 "quantity") path item 0
        >>= required (requires_property2 path (wide "quantity"))
    unit ←
        key_mapped s.conversions (to_text s.conversions) (measurement_unit_map s.unit_value)
          (utf8 "unit") [] item (s.unit_value piece)
        >>= settled
    tax ←
        key_mapped s.conversions (to_text s.conversions) (tax_cast_map s.tax_value) (utf8 "tax") []
          item (s.tax_value no)
        >>= tax_or_default default path
    new_item title price quantity unit tax

  -- The loop over the items, with the number of the next one and the sum so far.
  unfoldable pub read_items :
      Bool × ℕ → ℕ → Items → Double → Read (List ReceiptItemDetails × Double)
  unfolding read_item
  read_items default i nil sum = ok ([], sum)
  read_items default i (cons item items) sum = do
    first ← read_item default i item
    rest ← read_items default (suc i) items (s.plus sum (s.times first.price first.quantity))
    ok (first ∷ rest.0, rest.1)
