-- ===== src/Json/Laws.antt =====
-- What a reading that returns gives, step by step, and which exceptions it ends with.
use kkm_https_adapter.Base.{Bool, true, false, Option, none, some, Bytes, ◌≡◌, refl, ok, err}
use mathlib.Core.Path.{subst}
use kkm_https_adapter.Http.JsonValue.{Json, null, boolean, number, string, array, object, at}
use kkm_https_adapter.Json.{
  Failure, Read, ◌>>=◌, Conversions, variable, marked, Handler, handle, filtered, key_path, at_key,
  handle_key, key_handled, key_filtered,
}

-- A reading that returns gives a value with the property.
pub record Ensures {A : Type 0} (P : A → Type 0) (r : Read A) : Type 0 where
  pub returns : (a : A) → r ≡ ok a → P a

-- What is read has the property, or nothing is read and the variable is as it was.
pub data Got {A : Type 0} (a : A) (P : A → Type 0) : Bool × A → Type 0 where
  taken : (v : A) → P v → Got a P (true, v)
  kept : Got a P (false, a)

module _ {A : Type 0} {P : A → Type 0} where
  pub Ensures-err : (e : Failure) → Ensures P (err e)
  Ensures-err e = record { returns = λ a h. cc }

  pub Ensures-ok : (a : A) → P a → Ensures P (ok a)
  Ensures-ok a p = record { returns = λ b h. let same : a ≡ b = cc in subst P same p }

  pub Ensures-bind :
      {B : Type 0} {Q : B → Type 0} (r : Read A) (k : A → Read B)
      → Ensures P r
      → ((a : A) → P a → Ensures Q (k a))
      → Ensures Q (r >>= k)
  unfolding ◌>>=◌
  Ensures-bind (err e) k h g = record { returns = λ b i. cc }
  Ensures-bind (ok a) k h g = g a (h.returns a refl)

  pub Ensures-map :
      {Q : A → Type 0} {r : Read A} → Ensures P r → ((a : A) → P a → Q a) → Ensures Q r
  Ensures-map h g = record { returns = λ a e. g a (h.returns a e) }

  marked-Ensures : (path : Bytes) (r : Read A) → Ensures P r → Ensures P (marked path r)
  unfolding marked
  marked-Ensures path (err e) h = Ensures-err (variable path e)
  marked-Ensures path (ok a) h = h

pub Ensures-any : {A : Type 0} (r : Read A) → Ensures (λ _. Unit) r
Ensures-any r = record { returns = λ a h. tt }

module _ {A : Type 0} {P : A → Type 0} (a : A) where
  handle-Got :
      (handler : Handler A)
      → ((json : Json) (path : Bytes) → Ensures (Got a P) (handler json path a))
      → (json : Json) (path : Bytes) → Ensures (Got a P) (handle handler json path a)
  unfolding handle
  handle-Got handler h null path = Ensures-ok (false, a) kept
  handle-Got handler h (boolean b) path = marked-Ensures path _ (h (boolean b) path)
  handle-Got handler h (number n) path = marked-Ensures path _ (h (number n) path)
  handle-Got handler h (string t) path = marked-Ensures path _ (h (string t) path)
  handle-Got handler h (array js) path = marked-Ensures path _ (h (array js) path)
  handle-Got handler h (object fs) path = marked-Ensures path _ (h (object fs) path)

  pub handle_key-Got :
      (c : Conversions) (handler : Handler A) (key base : Bytes) (json : Json)
      → ((j : Json) (path : Bytes) → Ensures (Got a P) (handler j path a))
      → Ensures (Got a P) (handle_key c handler key base json a)
  unfolding handle_key
  handle_key-Got c handler key base null h = Ensures-ok (false, a) kept
  handle_key-Got c handler key base (boolean b) h = Ensures-err _
  handle_key-Got c handler key base (number n) h = Ensures-err _
  handle_key-Got c handler key base (string t) h = Ensures-err _
  handle_key-Got c handler key base (array js) h = Ensures-err _
  handle_key-Got c handler key base (object fs) h =
      marked-Ensures (key_path c base key) _ (inside (at key fs))
    where
      inside :
          (o : Option Json) → Ensures (Got a P) (at_key (handle handler) (key_path c base key) a o)
      inside none = Ensures-ok (false, a) kept
      inside (some j) = handle-Got handler h j (key_path c base key)

  pub key_handled-Got :
      (c : Conversions) (handler : Handler A) (key base : Bytes) (json : Json)
      → ((j : Json) (path : Bytes) → Ensures (Got a P) (handler j path a))
      → Ensures (Got a P) (key_handled c handler key base json a)
  unfolding key_handled
  key_handled-Got = handle_key-Got

  pub key_filtered-Got :
      (c : Conversions) (cast : Json → Read A) (filter : A → Read A) (key base : Bytes)
      (json : Json)
      → ((v : A) → Ensures P (filter v))
      → Ensures (Got a P) (key_filtered c cast filter key base json a)
  unfolding key_filtered filtered
  key_filtered-Got c cast filter key base json h =
      handle_key-Got c (filtered cast filter) key base json λ j path.
        Ensures-bind (cast j >>= filter) _
          (Ensures-bind (cast j) filter (Ensures-any (cast j)) λ v _. h v)
          λ w k. Ensures-ok (true, w) (taken w k)
