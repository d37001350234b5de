-- ===== src/Base/Results.antt =====
-- Exceptions as values, and src/library/lib/except.h's `DataError` by its message.

-- `c_invalidValue`, `c_rangeError`, and `c_invalidData` of src/library/kkm/strings.h.
pub data DataError : Type 0 where
  invalid_value range_error invalid_data : DataError

-- What a call ends with: an exception, or its value.
pub data Result (E A : Type 0) : Type 0 where
  err : E → Result E A
  ok : A → Result E A

-- A function on the value of a call; an exception goes through.
abbrev pub after : {E A B : Type 0} → (A → Result E B) → Result E A → Result E B
after f (err e) = err e
after f (ok a) = f a
