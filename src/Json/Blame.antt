-- ===== src/Json/Blame.antt =====
-- Which name a data error of the reading of a property bears.
use kkm_https_adapter.Base.{
  Bool, false, Option, none, some, [], ◌∷◌, Bytes, is_nil, DataError, ◌≡◌, refl, ◌⊎◌, inl, inr, ok,
  err,
}
use mathlib.Core.Path.{subst}
use kkm_https_adapter.Http.JsonValue.{
  Json, null, boolean, number, string, array, object, Fields, at,
}
use kkm_https_adapter.Json.{
  data_error, failure, Read, Conversions, marked, variable, Handler, handle, at_key, key_path,
  handle_key,
}

-- A reading has thrown a data error that bears this name already.
abbrev Threw : {A : Type 0} → Read A → DataError → Bytes → Type 0
Threw r m name = (r ≡ err (data_error m name)) × (is_nil name ≡ false)

module _ {A : Type 0} where
  marked_lem :
      (path : Bytes) (r : Read A) (m : DataError) (name : Bytes)
      → marked path r ≡ err (data_error m name)
      → (name ≡ path) ⊎ Threw r m name
  unfolding marked variable
  marked_lem path (ok a) m name h = cc
  marked_lem path (err (failure t)) m name h = cc
  marked_lem path (err (data_error n [])) m name h = inl cc
  marked_lem path (err (data_error n (c ∷ v))) m name h =
      let same : c ∷ v ≡ name = cc in inr (h, subst (λ t. is_nil t ≡ false) same refl)

module _ {A : Type 0} where
  handle_lem :
      (handler : Handler A) (json : Json) (path : Bytes) (a : A) (m : DataError) (name : Bytes)
      → handle handler json path a ≡ err (data_error m name)
      → (name ≡ path) ⊎ Threw (handler json path a) m name
  unfolding handle
  handle_lem handler null path a m name h = cc
  handle_lem handler (boolean b) path a m name h =
      marked_lem path (handler (boolean b) path a) m name h
  handle_lem handler (number n) path a m name h =
      marked_lem path (handler (number n) path a) m name h
  handle_lem handler (string t) path a m name h =
      marked_lem path (handler (string t) path a) m name h
  handle_lem handler (array js) path a m name h =
      marked_lem path (handler (array js) path a) m name h
  handle_lem handler (object fs) path a m name h =
      marked_lem path (handler (object fs) path a) m name h

  module _ (c : Conversions) (handler : Handler A) (key base : Bytes) (a : A) (m : DataError)
      (name : Bytes) where
    abbrev path : Bytes
    path = key_path c base key

    -- The value of the property is there, and the handler has named what is wrong inside it.
    abbrev pub NamedInside : Json → Type 0
    NamedInside json =
        (fs : Fields) × (j : Json) × (json ≡ object fs)
        × (at key fs ≡ some j)
        × (handler j path a ≡ err (data_error m name))
        × (is_nil name ≡ false)

    inside :
        (fs : Fields) (o : Option Json)
        → at key fs ≡ o
        → Threw (at_key (handle handler) path a o) m name
        → (name ≡ path) ⊎ NamedInside (object fs)
    inside fs none e (h, n) =
        let wrong : ◌≡◌ {A = Read (Bool × A)} (ok (false, a)) (err (data_error m name)) = h in cc
    inside fs (some j) e (h, n) = elim (handle_lem handler j path a m name h) [
      | inl same ↦ inl same
      | inr (threw, long) ↦ inr (fs, j, refl, e, threw, long)
    ]

    -- The name of a data error of the reading of a property is exactly the property's own path, or the
    -- one that the handler of its value has given the error.
    pub handle_key-Blames :
        (json : Json)
        → handle_key c handler key base json a ≡ err (data_error m name)
        → (name ≡ key_path c base key) ⊎ NamedInside json
    unfolding handle_key
    handle_key-Blames null h = cc
    handle_key-Blames (boolean b) h = inl cc
    handle_key-Blames (number n) h = inl cc
    handle_key-Blames (string t) h = inl cc
    handle_key-Blames (array js) h = inl cc
    handle_key-Blames (object fs) h =
        elim (marked_lem path (at_key (handle handler) path a (at key fs)) m name h) [
          | inl same ↦ inl same
          | inr threw ↦ inside fs (at key fs) refl threw
        ]
