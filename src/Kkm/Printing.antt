-- ===== src/Kkm/Printing.antt =====
-- The printing of texts in src/library/kkm/device.cpp, and `doubleClamp` of src/library/lib/numeric.h.
pub mod Margins
use kkm_https_adapter.Base.{
  ℕ, zero, suc, Bool, true, false, not, ◌&&◌, ◌||◌, List, [], ◌∷◌, ◌++◌, ltb, if◌then◌else◌, is_nil,
  replicate,
}
use kkm_https_adapter.Kkm.Driver.{
  WideText, wide, Driver, Param, Command, Constant, Value, constant, text, flag,
}
use kkm_https_adapter.Kkm.Details.{
  ℤ, pos, negsuc, PrintableText, PrintDetails, TextPosition, position_constant, auto,
}
use kkm_https_adapter.Kkm.Method.{
  Method, ◌>>◌, put, attempt, demand, proceed, when, with_line_length,
}

abbrev pub less : ℤ → ℤ → Bool
less (pos a) (pos b) = ltb a b
less (pos a) (negsuc b) = false
less (negsuc a) (pos b) = true
less (negsuc a) (negsuc b) = ltb b a

-- `doubleClamp` with the two values that it leaves.
unfoldable pub double_clamp : ℤ → ℤ → ℤ → ℤ → ℤ × ℤ
double_clamp a b lo hi =
    let x = if less a lo then lo else if less hi a then hi else a in
    (x, if less b lo || less hi b then x else b)

-- `append(count, character)`, where the count is not negative.
abbrev pub times : ℤ → ℕ → WideText
times (pos n) c = replicate n c
times (negsuc n) c = []

abbrev increment : ℤ → ℤ
increment (pos n) = pos (suc n)
increment (negsuc zero) = pos 0
increment (negsuc (suc n)) = negsuc n

abbrev pub newline : ℕ
newline = 10

abbrev pub separator_char : ℕ
separator_char = b'-'

unfoldable pub add_margins : WideText → ℤ → ℤ → WideText
unfolding double_clamp
add_margins content top bottom =
    let (t, b) = double_clamp top bottom (pos 0) (pos 10) in
    times t newline ++ (content ++ times b newline)

-- `addSeparator` of an empty text.
unfoldable pub add_separator : ℕ → ℤ → ℤ → WideText
unfolding double_clamp
add_separator line_length top bottom =
    let (t, b) = double_clamp top bottom (pos 0) (pos 10) in
    times t newline ++ (replicate line_length separator_char ++ times (increment b) newline)

unfoldable pub add_separators : ℕ → WideText → ℤ → ℤ → WideText
unfolding double_clamp
add_separators line_length content outer inner =
    let (o, i) = double_clamp outer inner (pos 0) (pos 10) in
    let line = replicate line_length separator_char in
    times o newline
    ++ (line
        ++ (times (increment i) newline
            ++ (content ++ (times (increment i) newline ++ (line ++ times o newline)))))

abbrev separator : ℕ → ℤ → ℤ → WideText
separator line_length top bottom =
    let (t, b) = double_clamp top bottom (pos 0) (pos 10) in
    times t newline ++ (replicate line_length separator_char ++ times b newline)

unfoldable pub sub_print_separator : {A : Type 0} → Driver → ℤ → ℤ → Method A
unfolding double_clamp demand
sub_print_separator k top bottom = with_line_length λ n.
    put Param.alignment (constant Constant.alignment_center)
    >> put Param.text (text (separator n top bottom))
    >> put Param.defer (constant Constant.defer_none)
    >> demand k Command.print_text

abbrev pub print_text : {A : Type 0} → Driver → WideText → Bool → Bool → TextPosition → Method A
print_text k content center magnified position =
    when magnified (put Param.font_double_width (flag true))
    >> when center (put Param.alignment (constant Constant.alignment_center))
    >> put Param.text_wrap (constant Constant.tw_words)
    >> put Param.text (text content)
    >> put Param.defer (constant (position_constant position))
    >> demand k Command.print_text

-- Both `subPrintText`.
unfoldable pub sub_print_text : {A : Type 0} → Driver → PrintableText → TextPosition → Method A
unfolding add_margins add_separator add_separators demand
sub_print_text k t position = with_line_length λ n.
    if is_nil t.content
    then if t.separated
      then print_text k (add_separator n t.margin_outer t.margin_inner) true false position
      else proceed
    else if t.separated && not t.magnified
    then print_text k (add_separators n t.content t.margin_outer t.margin_inner) t.center
        t.magnified position
    else print_text k (add_margins t.content t.margin_inner (negsuc 0)) t.center t.magnified
        position

-- A text that the source itself prints.
abbrev pub plain : WideText → Bool → Bool → ℤ → PrintableText
plain content center magnified margin = record {
  content = content;
  margin_outer = margin;
  margin_inner = margin;
  center = center;
  magnified = magnified;
  separated = false;
}

unfoldable pub hello_title : WideText
hello_title = wide "Привет!"

unfoldable pub hello_text : WideText
hello_text =
    newline ∷ wide "Я трудолюбивая касса."
    ++ (newline ∷ newline ∷ wide "Я очень рада работать в компании таких замечательных людей.")

module _ (k : Driver) where
  unfoldable pub print_hello : Method Unit
  unfolding demand sub_print_separator sub_print_text hello_title hello_text
  print_hello =
      demand k Command.begin_nonfiscal_document
      >> sub_print_separator k (pos 0) (pos 1)
      >> sub_print_text k (plain hello_title true true (pos 1)) auto
      >> sub_print_text k (plain hello_text true false (pos 1)) auto
      >> sub_print_separator k (pos 1) (pos 0)
      >> demand k Command.end_nonfiscal_document

  unfoldable pub print_blocks : List PrintableText → Method Unit
  unfolding sub_print_text
  print_blocks [] = proceed
  print_blocks (block ∷ blocks) = sub_print_text k block auto >> print_blocks blocks

  unfoldable pub print_non_fiscal_document : PrintDetails → Method Unit
  unfolding attempt print_blocks
  print_non_fiscal_document details =
      attempt k Command.begin_nonfiscal_document
      >> when details.cliche (attempt k Command.print_cliche)
      >> print_blocks details.document
      >> put Param.print_footer (flag details.footer)
      >> attempt k Command.end_nonfiscal_document
