-- ===== src/Kkm/Import/Document.antt =====
-- The document to print: `assign` to `PrintDetails` in src/library/kkm/impex.cpp.
use kkm_https_adapter.Base.{
  ℕ, suc, Bool, true, false, not, ◌&&◌, ◌++◌, List, [], ◌∷◌, Option, none, some, Bytes, utf8,
  is_nil, if◌then◌else◌, ok, err,
}
use kkm_https_adapter.Text.Number.{decimal}
use kkm_https_adapter.Text.Filters.{length_between}
use kkm_https_adapter.Http.JsonValue.{Json, array, object, Items, nil, cons, at}
use kkm_https_adapter.Json.{Read, ◌>>=◌, to_bool, to_wide_text, key_value, key_filtered}
use kkm_https_adapter.Kkm.Driver.{wide}
use kkm_https_adapter.Kkm.Details.{PrintableText, PrintDetails, pos}
use kkm_https_adapter.Kkm.Import.{
  Setup, required, settled, requires_property, requires_property2, assign_details, text_at, flag_at,
}

abbrev pub max_text_length : ℕ
max_text_length = 512

-- `json.contains(key) && json[key].is_array()`, with the elements.
abbrev elements : Option Json → Option Items
elements (some (array js)) = some js
elements _ = none

unfoldable pub array_at : Bytes → Json → Option Items
unfolding at
array_at key (object fs) = elements (at key fs)
array_at key _ = none

-- `std::format(L"document[{}]", i)`.
abbrev pub element_path : Bytes → ℕ → Bytes
element_path name i = name ++ (utf8 "[" ++ (decimal i ++ utf8 "]"))

-- The constructor of `PrintableText`.
abbrev pub printable : Bytes → Bool → Bool → Bool → Bool → PrintableText
printable content center magnified separated margin = record {
  content = content;
  margin_outer = pos 0;
  margin_inner = pos (if margin then 1 else 0);
  center = center;
  magnified = magnified;
  separated = separated;
}

module _ (s : Setup) where
  -- A block that is no separator.
  abbrev pub read_text : Bool → Bytes → Json → Read PrintableText
  read_text margin path block = do
    content ←
        text_at s (length_between 1 max_text_length) (utf8 "content") path block []
        >>= required (requires_property2 path (wide "content"))
    center ← flag_at s (utf8 "center") path block false >>= settled
    magnified ← flag_at s (utf8 "magnified") path block false >>= settled
    separated ← flag_at s (utf8 "separated") path block false >>= settled
    ok (printable content center magnified separated (margin && not (is_nil content)))

  unfoldable pub read_block : Bool → ℕ → Json → Read PrintableText
  unfolding key_value key_filtered to_bool to_wide_text length_between requires_property2 decimal
  read_block margin i block = do
    let path = element_path (utf8 "document") i
    separator ← flag_at s (utf8 "separator") path block false >>= settled
    if separator then ok (printable [] false false true false) else read_text margin path block

  -- The loop over the blocks, with the number of the next one.
  unfoldable pub read_blocks : Bool → ℕ → Items → Read (List PrintableText)
  unfolding read_block
  read_blocks margin i nil = ok []
  read_blocks margin i (cons block blocks) = do
    text ← read_block margin i block
    texts ← read_blocks margin (suc i) blocks
    ok (text ∷ texts)

  abbrev pub read_document : Bool → Option Items → Read (List PrintableText)
  read_document margin none = err (requires_property (wide "document"))
  read_document margin (some blocks) = read_blocks margin 0 blocks

  -- `assign` to `PrintDetails`.
  unfoldable pub assign_print : Json → Read PrintDetails
  unfolding assign_details key_value to_bool requires_property array_at read_blocks
  assign_print json = do
    electronically ← assign_details s json
    cliche ← flag_at s (utf8 "cliche") [] json false >>= settled
    footer ← flag_at s (utf8 "footer") [] json false >>= settled
    margin ← flag_at s (utf8 "margin") [] json false >>= settled
    document ← read_document margin (array_at (utf8 "document") json)
    ok (record {
      electronically = electronically;
      document = document;
      cliche = cliche;
      footer = footer;
    })
