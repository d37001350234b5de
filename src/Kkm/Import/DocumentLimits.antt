-- ===== src/Kkm/Import/DocumentLimits.antt =====
-- What an imported document keeps.
use kkm_https_adapter.Base.{
  ℕ, suc, Bool, true, false, [], Option, none, some, Bytes, utf8, ◌≡◌, refl, ap, length, ok, inl,
  inr, ◌⊎◌, All, if◌then◌else◌,
}
use kkm_https_adapter.Http.JsonValue.{Json, Items, nil, cons}
use kkm_https_adapter.Json.Laws.{
  Ensures, Ensures-err, Ensures-ok, Ensures-bind, Ensures-any, Ensures-map,
}
use kkm_https_adapter.Kkm.Details.{PrintableText, PrintDetails, pos}
use kkm_https_adapter.Kkm.Import.{Setup}
use kkm_https_adapter.Kkm.Import.Bounds.{HasLength, text_at-between, required-Ensures}
use kkm_https_adapter.Kkm.Import.Document.{
  element_path, array_at, max_text_length, printable, read_text, read_block, read_blocks,
  read_document, assign_print,
}
use kkm_https_adapter.Kkm.Import.Receipt.ItemLimits.{count}

-- A separator with no text and no margin, or a text within the limits.
abbrev pub IsBlock : PrintableText → Type 0
IsBlock t =
    ((t.content ≡ []) × (t.separated ≡ true) × (t.margin_inner ≡ pos 0))
    ⊎ HasLength 1 max_text_length t.content

module _ (s : Setup) where
  read_text-IsBlock :
      (margin : Bool) (path : Bytes) (block : Json)
      → Ensures IsBlock (read_text s margin path block)
  read_text-IsBlock margin path block =
      Ensures-bind _ _
        (Ensures-bind _ _ (text_at-between s (utf8 "content") path block 1 512 [])
          (required-Ensures _))
        λ content c. Ensures-bind _ _ (Ensures-any _) λ center _.
          Ensures-bind _ _ (Ensures-any _)
            λ magnified _. Ensures-bind _ _ (Ensures-any _) λ separated _. Ensures-ok _ (inr c)

  read_block-IsBlock :
      (margin : Bool) (i : ℕ) (block : Json) → Ensures IsBlock (read_block s margin i block)
  unfolding read_block
  read_block-IsBlock margin i block =
      Ensures-bind _ _ (Ensures-any _) λ separator _. by_kind separator
    where
      by_kind :
          (separator : Bool)
          → Ensures IsBlock (
              if separator
              then ok (printable [] false false true false)
              else read_text s margin (element_path (utf8 "document") i) block)
      by_kind true = Ensures-ok _ (inl (refl, refl, refl))
      by_kind false = read_text-IsBlock margin (element_path (utf8 "document") i) block

  read_blocks-Ensures :
      (margin : Bool) (i : ℕ) (js : Items)
      → Ensures (λ ts. All IsBlock ts × (length ts ≡ count js)) (read_blocks s margin i js)
  unfolding read_blocks
  read_blocks-Ensures margin i nil = Ensures-ok _ (tt, refl)
  read_blocks-Ensures margin i (cons j js) = Ensures-bind _ _ (read_block-IsBlock margin i j) λ t h.
      Ensures-bind _ _ (read_blocks-Ensures margin (suc i) js)
        λ ts k. Ensures-ok _ ((h, k.0), ap suc k.1)

  abbrev IsDocument : Json → PrintDetails → Type 0
  IsDocument json d =
      All IsBlock d.document
      × ((js : Items) × (array_at (utf8 "document") json ≡ some js)
          × (length d.document ≡ count js))

  read_document-Ensures :
      (margin : Bool) (o : Option Items)
      → Ensures
          (λ ts. All IsBlock ts × ((js : Items) × (o ≡ some js) × (length ts ≡ count js)))
          (read_document s margin o)
  read_document-Ensures margin none = Ensures-err _
  read_document-Ensures margin (some js) =
      Ensures-map (read_blocks-Ensures margin 0 js) λ ts k. (k.0, (js, refl, k.1))

  -- An imported document has one block for each element of "document", in which a separator has no
  -- text and no margin, and any other block a text of 1 to 512 characters.
  pub assign_print-IsDocument :
      (json : Json) (d : PrintDetails)
      → assign_print s json ≡ ok d
      → All IsBlock d.document
        × ((js : Items) × (array_at (utf8 "document") json ≡ some js)
            × (length d.document ≡ count js))
  unfolding assign_print
  assign_print-IsDocument json d e = made.returns d e
    where
      made : Ensures (IsDocument json) (assign_print s json)
      made = Ensures-bind _ _ (Ensures-any _) λ electronically _.
          Ensures-bind _ _ (Ensures-any _) λ cliche _. Ensures-bind _ _ (Ensures-any _) λ footer _.
            Ensures-bind _ _ (Ensures-any _) λ margin _.
              Ensures-bind _ _ (read_document-Ensures margin (array_at (utf8 "document") json))
                λ ts k. Ensures-ok _ k
