-- ===== src/Kkm/Tables.antt =====
-- The enums of src/library/kkm/types.h that the import reads by name, and their tables in
-- src/library/kkm/strings.h. The driver's number for a value is an argument: its constants are not
-- this repository's.
use kkm_https_adapter.Base.{ℕ, List, [], ◌∷◌, Bytes, utf8}
use kkm_https_adapter.Text.Number.{decimal}
use kkm_https_adapter.Kkm.Details.{PaymentType, cash, electronically}

pub data MeasurementUnit : Type 0 where
  piece gram kilogram ton centimeter decimeter meter square_centimeter square_decimeter square_meter
        milliliter liter cubic_meter kilowatt_hour gkal day hour minute second kilobyte megabyte
        gigabyte terabyte other :
      MeasurementUnit

pub data Tax : Type 0 where
  no vat0 vat5 vat105 vat7 vat107 vat10 vat110 vat20 vat120 : Tax

-- The cast maps: from a lower-case name, or the driver's number in digits.
unfoldable pub measurement_unit_map : (MeasurementUnit → ℕ) → List (Bytes × ℕ)
unfolding decimal
measurement_unit_map value =
    (utf8 "piece", value piece)
    ∷ (decimal (value piece), value piece)
    ∷ (utf8 "gram", value gram)
    ∷ (decimal (value gram), value gram)
    ∷ (utf8 "kilogram", value kilogram)
    ∷ (decimal (value kilogram), value kilogram)
    ∷ (utf8 "ton", value ton)
    ∷ (decimal (value ton), value ton)
    ∷ (utf8 "centimeter", value centimeter)
    ∷ (decimal (value centimeter), value centimeter)
    ∷ (utf8 "decimeter", value decimeter)
    ∷ (decimal (value decimeter), value decimeter)
    ∷ (utf8 "meter", value meter)
    ∷ (decimal (value meter), value meter)
    ∷ (utf8 "squarecentimeter", value square_centimeter)
    ∷ (utf8 "square_centimeter", value square_centimeter)
    ∷ (decimal (value square_centimeter), value square_centimeter)
    ∷ (utf8 "squaredecimeter", value square_decimeter)
    ∷ (utf8 "square_decimeter", value square_decimeter)
    ∷ (decimal (value square_decimeter), value square_decimeter)
    ∷ (utf8 "squaremeter", value square_meter)
    ∷ (utf8 "square_meter", value square_meter)
    ∷ (decimal (value square_meter), value square_meter)
    ∷ (utf8 "milliliter", value milliliter)
    ∷ (decimal (value milliliter), value milliliter)
    ∷ (utf8 "liter", value liter)
    ∷ (decimal (value liter), value liter)
    ∷ (utf8 "cubicmeter", value cubic_meter)
    ∷ (utf8 "cubic_meter", value cubic_meter)
    ∷ (decimal (value cubic_meter), value cubic_meter)
    ∷ (utf8 "kilowatthour", value kilowatt_hour)
    ∷ (utf8 "kilowatt_hour", value kilowatt_hour)
    ∷ (decimal (value kilowatt_hour), value kilowatt_hour)
    ∷ (utf8 "gkal", value gkal)
    ∷ (decimal (value gkal), value gkal)
    ∷ (utf8 "day", value day)
    ∷ (decimal (value day), value day)
    ∷ (utf8 "hour", value hour)
    ∷ (decimal (value hour), value hour)
    ∷ (utf8 "minute", value minute)
    ∷ (decimal (value minute), value minute)
    ∷ (utf8 "second", value second)
    ∷ (decimal (value second), value second)
    ∷ (utf8 "kilobyte", value kilobyte)
    ∷ (decimal (value kilobyte), value kilobyte)
    ∷ (utf8 "megabyte", value megabyte)
    ∷ (decimal (value megabyte), value megabyte)
    ∷ (utf8 "gigabyte", value gigabyte)
    ∷ (decimal (value gigabyte), value gigabyte)
    ∷ (utf8 "terabyte", value terabyte)
    ∷ (decimal (value terabyte), value terabyte)
    ∷ (utf8 "other", value other)
    ∷ (decimal (value other), value other)
    ∷ []

unfoldable pub tax_cast_map : (Tax → ℕ) → List (Bytes × ℕ)
unfolding decimal
tax_cast_map value =
    (utf8 "no", value no)
    ∷ (decimal (value no), value no)
    ∷ (utf8 "0%", value vat0)
    ∷ (utf8 "vat0", value vat0)
    ∷ (decimal (value vat0), value vat0)
    ∷ (utf8 "5%", value vat5)
    ∷ (utf8 "vat5", value vat5)
    ∷ (decimal (value vat5), value vat5)
    ∷ (utf8 "105%", value vat105)
    ∷ (utf8 "vat105", value vat105)
    ∷ (decimal (value vat105), value vat105)
    ∷ (utf8 "7%", value vat7)
    ∷ (utf8 "vat7", value vat7)
    ∷ (decimal (value vat7), value vat7)
    ∷ (utf8 "107%", value vat107)
    ∷ (utf8 "vat107", value vat107)
    ∷ (decimal (value vat107), value vat107)
    ∷ (utf8 "10%", value vat10)
    ∷ (utf8 "vat10", value vat10)
    ∷ (decimal (value vat10), value vat10)
    ∷ (utf8 "110%", value vat110)
    ∷ (utf8 "vat110", value vat110)
    ∷ (decimal (value vat110), value vat110)
    ∷ (utf8 "20%", value vat20)
    ∷ (utf8 "vat20", value vat20)
    ∷ (decimal (value vat20), value vat20)
    ∷ (utf8 "120%", value vat120)
    ∷ (utf8 "vat120", value vat120)
    ∷ (decimal (value vat120), value vat120)
    ∷ []

unfoldable pub payment_type_cast_map : (PaymentType → ℕ) → List (Bytes × PaymentType)
unfolding decimal
payment_type_cast_map value =
    (utf8 "cash", cash)
    ∷ (decimal (value cash), cash)
    ∷ (utf8 "electronically", electronically)
    ∷ (decimal (value electronically), electronically)
    ∷ []
