-- ===== src/Text/Variable.antt =====
-- `splitVariable` on a line that holds a name, a sign and a value.
use kkm_https_adapter.Base.{
  ℕ, Bool, true, false, [], ◌∷◌, ◌++◌, ◌≡◌, refl, ap, Bytes, is_nil, among, if◌then◌else◌,
}
use kkm_https_adapter.Text.{before, from, trim, lower, split_variable}
use kkm_https_adapter.Text.Join.{Free}

pub before-append :
    (d u : Bytes) (x : ℕ) (t : Bytes) → Free d u → among x d ≡ true → before d (u ++ x ∷ t) ≡ u
unfolding before
before-append d [] x t h e = rw e refl
before-append d (c ∷ u) x t (k, h) e = rw k (ap (◌∷◌ c) (before-append d u x t h e))

pub from-append :
    (d u : Bytes) (x : ℕ) (t : Bytes) → Free d u → among x d ≡ true → from d (u ++ x ∷ t) ≡ x ∷ t
unfolding from
from-append d [] x t h e = rw e refl
from-append d (c ∷ u) x t (k, h) e = rw k (from-append d u x t h e)

pub Free-from : (d t : Bytes) → Free d t → from d t ≡ []
unfolding from
Free-from d [] h = refl
Free-from d (c ∷ t) (k, h) = rw k (Free-from d t h)

is_nil-append : (u : Bytes) (x : ℕ) (t : Bytes) → is_nil (u ++ x ∷ t) ≡ false
is_nil-append [] x t = refl
is_nil-append (c ∷ u) x t = refl

is_nil_of_among : (x : ℕ) (d : Bytes) → among x d ≡ true → is_nil d ≡ false
unfolding among
is_nil_of_among x [] e = cc
is_nil_of_among x (y ∷ d) e = refl

-- The name is what stands before the first separator, the value all that stands behind it, later
-- separators included; both lose the blanks at their ends, and each is put in lower case if asked.
pub split_variable_lem :
    (u : Bytes) (x : ℕ) (t : Bytes) (lower_name lower_value : Bool) (d : Bytes)
    → Free d u
    → among x d ≡ true
    → split_variable (u ++ x ∷ t) lower_name lower_value d ≡ (
      if lower_name then lower (trim u) else trim u,
      if lower_value then lower (trim t) else trim t,
    )
unfolding split_variable
split_variable_lem u x t ln lv d h e =
    rw
      (
        is_nil-append u x t,
        is_nil_of_among x d e,
        before-append d u x t h e,
        from-append d u x t h e,
      )
      refl
