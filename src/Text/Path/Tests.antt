-- ===== src/Text/Path/Tests.antt =====
-- A path and its parts.
use kkm_https_adapter.Base.{[], ◌∷◌, utf8, All, among, ◌≡◌, refl, false, Bytes}
use kkm_https_adapter.Text.Path.{is_good}
use kkm_https_adapter.Text.Path.Parts.{parts, IsPlain, parts-IsPlain}

abbrev path : Bytes
path = utf8 "/static/a.css"

split : parts path ≡ [] ∷ utf8 "static" ∷ utf8 "a.css" ∷ []
unfolding parts
split = refl

climbing : is_good (utf8 "/static/../a") ≡ false
unfolding is_good among
climbing = refl

parts-IsPlain_example : All IsPlain (parts path)
unfolding is_good among
parts-IsPlain_example = parts-IsPlain path refl refl
