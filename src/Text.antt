-- ===== src/Text.antt =====
-- src/library/lib/text.cpp and the narrow-string half of src/library/lib/text.h: character
-- predicates, trimming, case, splitting and joining. A `std::string` is its list of bytes; what the
-- source addresses by positions is here the rest of the text from that position on. `std::tolower`
-- is taken in the "C" locale, where it changes the letters A to Z only.
pub mod Trim
pub mod Split
pub mod Join
pub mod Variable
pub mod Number
pub mod Filters
pub mod Limits
pub mod Path
mod Tests
use kkm_https_adapter.Base.{
  ℕ, zero, suc, ◌+◌, Bool, true, false, ◌&&◌, ◌||◌, not, List, [], ◌∷◌, ◌++◌, map, Option, none,
  some, ltb, leb, ◌==◌, if◌then◌else◌, Bytes, utf8, among, is_nil, length,
}

unfoldable pub trim_predicate : ℕ → Bool
trim_predicate c = c == b' ' || c == 10 || c == 13 || c == 9 || c == 11 || c == 12

unfoldable pub no_trim_predicate : ℕ → Bool
no_trim_predicate c =
    not (c == b' ')
    && not (c == 10)
    && not (c == 13)
    && not (c == 9)
    && not (c == 11)
    && not (c == 12)

unfoldable pub to_lower : ℕ → ℕ
to_lower c = if leb b'A' c && leb c b'Z' then c + 32 else c

-- The text from the first byte that passes `std::find_if`'s test on.
unfoldable pub from_first : (ℕ → Bool) → Bytes → Bytes
from_first p [] = []
from_first p (c ∷ t) = if p c then c ∷ t else from_first p t

-- The text up to the last byte that passes the test, which a search from the back finds.
unfoldable pub to_last : (ℕ → Bool) → Bytes → Bytes
to_last p [] = []
to_last p (c ∷ t) = let rest = to_last p t in if is_nil rest && not (p c) then [] else c ∷ rest

-- `trim` erases the blank front, then the blank end.
unfoldable pub trim : Bytes → Bytes
unfolding from_first to_last no_trim_predicate
trim text = to_last no_trim_predicate (from_first no_trim_predicate text)

-- `trimmed` finds the end first, and then the begin before it.
unfoldable pub trimmed : Bytes → Bytes
unfolding from_first to_last no_trim_predicate
trimmed text = from_first no_trim_predicate (to_last no_trim_predicate text)

unfoldable pub lower : Bytes → Bytes
unfolding to_lower
lower text = map to_lower text

-- `find_first_of`: what stands before the first of these characters, and the text from it on.
unfoldable pub before : Bytes → Bytes → Bytes
unfolding among
before delims [] = []
before delims (c ∷ t) = if among c delims then [] else c ∷ before delims t

unfoldable pub from : Bytes → Bytes → Bytes
unfolding among
from delims [] = []
from delims (c ∷ t) = if among c delims then c ∷ t else from delims t

-- `find_first_not_of`.
unfoldable pub skip : Bytes → Bytes → Bytes
unfolding among
skip delims [] = []
skip delims (c ∷ t) = if among c delims then skip delims t else c ∷ t

abbrev prepend : Bytes → Option (List Bytes) → Option (List Bytes)
prepend word none = none
prepend word (some words) = some (word ∷ words)

-- The loop of `splitTo`; `none` when the fuel runs out.
unfoldable pub split_loop : ℕ → Bytes → Bytes → Option (List Bytes)
unfolding before from skip
split_loop zero delims text = none
split_loop (suc fuel) delims text = elim (skip delims text) [
  | [] ↦ some []
  | c ∷ rest ↦ elim (from delims rest) [
    | [] ↦ some ((c ∷ rest) ∷ [])
    | d ∷ next ↦ prepend (c ∷ before delims rest) (split_loop fuel delims next)
  ]
]

abbrev or_nil : Option (List Bytes) → List Bytes
or_nil none = []
or_nil (some words) = words

-- `splitTo` with the receiver that it leaves and the number that it returns.
unfoldable pub split_to : List Bytes → Bytes → Bytes → Bool → List Bytes × ℕ
unfolding split_loop
split_to receiver text delims clear =
    let kept = if clear then [] else receiver in
    if is_nil text || is_nil delims
    then (kept, 0)
    else let words = kept ++ or_nil (split_loop (suc (length text)) delims text) in
      (words, length words)

abbrev pub assignment_signs : Bytes
assignment_signs = utf8 "=:"

-- The text behind its first byte: `assign(text, position + 1, …)` of the text from `position` on.
abbrev pub rest_of : Bytes → Bytes
rest_of [] = []
rest_of (c ∷ t) = t

abbrev lower_if : Bool → Bytes → Bytes
lower_if b t = if b then lower t else t

-- `splitVariable`; the result is the name and the value.
unfoldable pub split_variable : Bytes → Bool → Bool → Bytes → Bytes × Bytes
unfolding before from trim trimmed lower
split_variable text lower_name lower_value separator =
    if is_nil text || is_nil separator
    then ([], [])
    else if is_nil (from separator text)
    then (lower_if lower_name (trimmed text), [])
    else (
      lower_if lower_name (trim (before separator text)),
      lower_if lower_value (trim (rest_of (from separator text))),
    )

-- `joinTo` of a container: empty parts are left out, and no glue stands in front.
unfoldable pub join_to : Bytes → List Bytes → Bytes → Bytes
join_to receiver [] glue = receiver
join_to receiver (str ∷ container) glue =
    join_to
      (if is_nil str then receiver else if is_nil receiver then str else receiver ++ (glue ++ str))
      container glue

-- `concatTo`: the texts one after the other.
unfoldable pub concat_to : Bytes → List Bytes → Bytes
concat_to receiver [] = receiver
concat_to receiver (text ∷ texts) = concat_to (receiver ++ text) texts

-- `joinTo` of one text.
unfoldable pub join_text : Bytes → Bytes → Bytes → Bytes
join_text receiver text glue = if is_nil receiver then text else receiver ++ (glue ++ text)
