-- ===== src/Json.antt =====
-- src/library/lib/json.h, and `DataError::variable` of src/library/lib/except.h: reading a value
-- of the JSON library into a variable, with the path of a property in the exception. What the
-- JSON library and the C library convert is an interface, `Conversions`. A wide text and a narrow
-- one are lists of their characters.
pub mod Laws
pub mod Naming
pub mod Blame
use kkm_https_adapter.Base.{
  ℕ, zero, suc, Bool, true, false, List, [], ◌∷◌, ◌++◌, Option, none, some, Bytes, utf8, is_nil,
  if◌then◌else◌, Result, ok, err, DataError, invalid_value, range_error, invalid_data, wide, after,
  Double, equal,
}
use kkm_https_adapter.Text.{trim, lower, join_text}
use kkm_https_adapter.Text.Number.{c_str}
use kkm_https_adapter.Text.Filters.{cast_bool}
use kkm_https_adapter.Http.JsonValue.{
  Json, null, boolean, number, string, array, object, Items, nil, cons, at,
}

-- `Basic::DataError` with the variable that it names, and `Basic::Failure`.
pub data Failure : Type 0 where
  data_error : DataError → Bytes → Failure
  failure : Bytes → Failure

-- `what`.
unfoldable pub what : Failure → Bytes
what (failure m) = m
what (data_error invalid_value name) = wide "Недопустимое значение"
what (data_error range_error name) = wide "Значение вне диапазона"
what (data_error invalid_data name) = wide "Ошибка данных"

abbrev pub Read : Type 0 → Type 0
Read A = Result Failure A

-- The steps of a function that may throw, one after the other.
infixl 5 ◌>>=◌
unfoldable pub ◌>>=◌ : {A B : Type 0} → Read A → (A → Read B) → Read B
err e >>= k = err e
ok a >>= k = k a

-- What is thrown without a variable.
abbrev pub unnamed : {A : Type 0} → Result DataError A → Read A
unnamed (err m) = err (data_error m [])
unnamed (ok a) = ok a

-- `Text::convert`, `get` and `is_number_integer` of the JSON library's numbers, `std::to_string` of
-- what they give, and `strtod` and `strtol`, which give the value and the text behind it, or nothing
-- when there is no number in front. An `int` is its bit pattern.
pub record Conversions : Type 0 where
  pub widen : Bytes → Bytes
  pub is_integer : ℕ → Bool
  pub integer_text : ℕ → Bytes
  pub float_text : ℕ → Bytes
  pub is_zero : ℕ → Bool
  pub get_double : ℕ → Double
  pub get_int : ℕ → ℕ
  pub strtod : Bytes → Option (Double × Bytes)
  pub strtol : Bytes → Option (ℕ × Bytes)
  pub to_lower_wide : ℕ → ℕ

abbrev whole : {A : Type 0} → Option (A × Bytes) → Result DataError A
whole none = err invalid_value
whole (some (value, end)) = if is_nil end then ok value else err invalid_value

-- `Text::cast` to a signed or a floating number, over the function of the C library.
unfoldable pub cast_text : {A : Type 0} → (Bytes → Option (A × Bytes)) → Bytes → Result DataError A
cast_text to_numeric text =
    if is_nil (c_str text) then err invalid_value else whole (to_numeric (c_str text))

abbrev pub double_one : Double
double_one = 0x3ff0000000000000

module _ (c : Conversions) where
  -- `Json::cast` to `bool`, `int`, `double`, and texts: to wide ones, and to narrow ones.
  unfoldable pub to_bool : Json → Read Bool
  unfolding cast_bool
  to_bool (boolean b) = ok b
  to_bool (string s) = unnamed (cast_bool s)
  to_bool (number n) = ok (if c.is_zero n then false else true)
  to_bool _ = err (data_error invalid_value [])

  unfoldable pub to_int : Json → Read ℕ
  unfolding cast_text
  to_int (number n) = ok (c.get_int n)
  to_int (string s) = unnamed (cast_text c.strtol s)
  to_int (boolean b) = ok (if b then 1 else 0)
  to_int _ = err (data_error invalid_value [])

  unfoldable pub to_double : Json → Read Double
  unfolding cast_text
  to_double (number n) = ok (c.get_double n)
  to_double (string s) = unnamed (cast_text c.strtod s)
  to_double (boolean b) = ok (if b then double_one else 0)
  to_double _ = err (data_error invalid_value [])

  abbrev to_some_text : (Bytes → Bytes) → Json → Read Bytes
  to_some_text convert (string s) = ok (convert s)
  to_some_text convert (number n) = ok (if c.is_integer n then c.integer_text n else c.float_text n)
  to_some_text convert (boolean b) = ok (if b then utf8 "yes" else utf8 "no")
  to_some_text convert _ = err (data_error invalid_value [])

  unfoldable pub to_wide_text : Json → Read Bytes
  to_wide_text = to_some_text c.widen

  unfoldable pub to_text : Json → Read Bytes
  to_text = to_some_text (λ s. s)

-- `e.variable(…)`: the variable is named once.
unfoldable pub variable : Bytes → Failure → Failure
variable name (data_error m old) = data_error m (if is_nil old then name else old)
variable name (failure m) = failure m

-- `catch (DataError & e) { e.variable(jsonPath); throw; }`.
unfoldable pub marked : {A : Type 0} → Bytes → Read A → Read A
unfolding variable
marked path (err e) = err (variable path e)
marked path (ok a) = ok a

-- A function on a value and its path, which may change a variable and says whether it has.
abbrev pub Handler : Type 0 → Type 0
Handler A = Json → Bytes → A → Read (Bool × A)

abbrev is_null : Json → Bool
is_null null = true
is_null _ = false

-- `Json::handle` with a handler.
unfoldable pub handle : {A : Type 0} → Handler A → Handler A
unfolding marked
handle handler json path a =
    if is_null json then ok (false, a) else marked path (handler json path a)

-- What the other `Json::handle` do with a value: cast it, cast and filter it, look it up.
unfoldable pub plain : {A : Type 0} → (Json → Read A) → Handler A
plain cast json path a = cast json >>= λ v. ok (true, v)

unfoldable pub filtered : {A : Type 0} → (Json → Read A) → (A → Read A) → Handler A
filtered cast filter json path a = cast json >>= filter >>= λ v. ok (true, v)

unfoldable pub find : {A : Type 0} → Bytes → List (Bytes × A) → Option A
unfolding equal
find key [] = none
find key ((name, a) ∷ rest) = let other = find key rest in if equal key name then some a else other

abbrev found : {A : Type 0} → Bytes → Option A → Read (Bool × A)
found path none = err (data_error range_error path)
found path (some a) = ok (true, a)

unfoldable pub mapped : {A : Type 0} → (Json → Read Bytes) → List (Bytes × A) → Handler A
unfolding find trim lower
mapped cast cast_map json path a =
    cast json >>= λ text. found path (find (lower (trim text)) cast_map)

-- `Json::handle` with a container: the elements of an array are appended to it.
unfoldable pub push_all : {A : Type 0} → (Json → Read A) → Items → List A → Read (List A)
push_all cast nil xs = ok xs
push_all cast (cons j js) xs = cast j >>= λ a. push_all cast js (xs ++ (a ∷ []))

abbrev handle_items : {A : Type 0} → (Json → Read A) → Handler (List A)
handle_items cast (array js) path xs = push_all cast js xs >>= λ all. ok (true, all)
handle_items cast null path xs = ok (false, xs)
handle_items cast _ path xs = err (data_error invalid_value path)

unfoldable pub handle_range : {A : Type 0} → (Json → Read A) → Handler (List A)
unfolding push_all marked
handle_range cast json path xs = marked path (handle_items cast json path xs)

-- `Json::handleKey`, over the `Json::handle` that it calls. A missing key, a null and a missing
-- object leave the variable as it is.
unfoldable pub key_path : Conversions → Bytes → Bytes → Bytes
unfolding join_text
key_path c base key = join_text base (c.widen key) (utf8 ".")

abbrev pub at_key : {A : Type 0} → Handler A → Bytes → A → Option Json → Read (Bool × A)
at_key handler path a none = ok (false, a)
at_key handler path a (some json) = handler json path a

abbrev in_object : {A : Type 0} → Handler A → Bytes → Bytes → A → Json → Read (Bool × A)
in_object handler key path a (object fs) = marked path (at_key handler path a (at key fs))
in_object handler key path a null = ok (false, a)
in_object handler key path a _ = err (data_error invalid_value path)

unfoldable pub handle_key :
    {A : Type 0} → Conversions → Handler A → Bytes → Bytes → Json → A → Read (Bool × A)
unfolding handle key_path marked at
handle_key c handler key base json a = in_object (handle handler) key (key_path c base key) a json

-- The overloads of `Json::handleKey`: for a handler, a cast, a filter and a cast map.
module _ {A : Type 0} (c : Conversions) where
  unfoldable pub key_handled : Handler A → Bytes → Bytes → Json → A → Read (Bool × A)
  unfolding handle_key
  key_handled handler = handle_key c handler

  unfoldable pub key_value : (Json → Read A) → Bytes → Bytes → Json → A → Read (Bool × A)
  unfolding handle_key plain
  key_value cast = handle_key c (plain cast)

  unfoldable pub key_filtered :
      (Json → Read A) → (A → Read A) → Bytes → Bytes → Json → A → Read (Bool × A)
  unfolding handle_key filtered
  key_filtered cast filter = handle_key c (filtered cast filter)

  unfoldable pub key_mapped :
      (Json → Read Bytes) → List (Bytes × A) → Bytes → Bytes → Json → A → Read (Bool × A)
  unfolding handle_key mapped
  key_mapped cast cast_map = handle_key c (mapped cast cast_map)
