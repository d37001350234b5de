-- ===== src/Text/Path.antt =====
-- `Path::isGood` of src/library/lib/path.h, for narrow paths.
pub mod Parts
mod Tests
use kkm_https_adapter.Base.{
  ℕ, Bool, true, false, not, ◌&&◌, ◌||◌, ◌==◌, ltb, [], ◌∷◌, Bytes, utf8, is_nil, among,
}

abbrev pub starts_with : Bytes → Bytes → Bool
starts_with [] t = true
starts_with (p ∷ ps) [] = false
starts_with (p ∷ ps) (c ∷ t) = p == c && starts_with ps t

-- `find(part) != npos`.
unfoldable pub has : Bytes → Bytes → Bool
has part [] = is_nil part
has part (c ∷ t) = starts_with part (c ∷ t) || has part t

abbrev pub bad_character : ℕ → Bool
unfolding among
bad_character c = ltb c 32 || among c (utf8 "<>:\"|?*")

-- `find_first_of(…) != npos` of the bad characters.
unfoldable pub has_bad : Bytes → Bool
unfolding among
has_bad [] = false
has_bad (c ∷ t) = bad_character c || has_bad t

-- `find_last_not_of(" .") == size() - 1`, which also holds of the empty text.
unfoldable pub ends_well : Bytes → Bool
unfolding among
ends_well [] = true
ends_well (c ∷ []) = not (among c (utf8 " ."))
ends_well (c ∷ (d ∷ t)) = ends_well (d ∷ t)

unfoldable pub is_good : Bytes → Bool
unfolding has has_bad ends_well
is_good path =
    not (has_bad path)
    && not (has (utf8 "\\.") path)
    && not (has (utf8 "/.") path)
    && not (has (utf8 ".\\") path)
    && not (has (utf8 "./") path)
    && not (has (utf8 "\\ ") path)
    && not (has (utf8 "/ ") path)
    && not (has (utf8 " \\") path)
    && not (has (utf8 " /") path)
    && not (has (utf8 "..") path)
    && ends_well path
