-- ===== src/Text/Tests.antt =====
-- Runs of the text functions, and the theorems on them at concrete texts.
use kkm_https_adapter.Base.{true, [], ◌∷◌, ◌++◌, ◌≡◌, refl, arith, Bytes, utf8, among, length, ok}
use kkm_https_adapter.Text.{
  trim, split_to, split_loop, before, from, skip, join_to, from_first, to_last, no_trim_predicate,
}
use kkm_https_adapter.Text.Split.{split_to_lem, words}
use kkm_https_adapter.Text.Join.{words-join_to}
use kkm_https_adapter.Text.Number.{cast_size, cast_size-decimal, decimal}

abbrev padded : Bytes
padded = utf8 " a b "

trim_test : trim padded ≡ utf8 "a b"
unfolding trim from_first to_last no_trim_predicate
trim_test = refl

split_test : (split_to [] (utf8 "a; b") (utf8 " ;") true).0 ≡ utf8 "a" ∷ utf8 "b" ∷ []
unfolding split_to split_loop before from skip among
split_test = refl

split_to_lem_example :
    split_to [] (utf8 "a; b") (utf8 " ;") true
    ≡ ([] ++ words (utf8 " ;") (utf8 "a; b"), length ([] ++ words (utf8 " ;") (utf8 "a; b")))
split_to_lem_example = split_to_lem [] (utf8 "a; b") (utf8 " ;") true

words-join_to_example :
    words (utf8 "/") (join_to [] (utf8 "ab" ∷ utf8 "c" ∷ []) (b'/' ∷ []))
    ≡ utf8 "ab" ∷ utf8 "c" ∷ []
unfolding among
words-join_to_example =
    words-join_to (utf8 "/") (utf8 "ab" ∷ utf8 "c" ∷ []) b'/' refl
      ((refl, (refl, (refl, tt))), ((refl, (refl, tt)), tt))

cast_size-decimal_example : cast_size (decimal 131072) ≡ ok 131072
cast_size-decimal_example = cast_size-decimal 131072 (omega arith)
