-- ===== src/Base/Texts.antt =====
-- Texts as lists of bytes: what `std::string` holds. A literal is encoded in UTF-8.
use Prim.Native.Nat.{ℕ, ◌+◌, ◌/◌, ◌%◌}
use Prim.Native.Char.{code}
use Prim.Native.String.{String}
use mathlib.Core.Path.{◌≡◌, refl}
use mathlib.Core.Logic.{◌↔◌, ◌≢◌}
use mathlib.Core.Bool.{Bool, true, false, ◌&&◌, ◌||◌}
use mathlib.Core.List.{List, [], ◌∷◌, ◌++◌}
use native.Mathlib.Omega.{arith}
use kkm_https_adapter.Base.Tests.{ltb, ◌==◌, if◌then◌else◌}

abbrev pub Bytes : Type 0
Bytes = List ℕ

-- One code point below 2 ^ 16.
abbrev encode : ℕ → Bytes
encode c =
    if ltb c 128
    then c ∷ []
    else if ltb c 2048
    then (192 + c / 64) ∷ (128 + c % 64) ∷ []
    else (224 + c / 4096) ∷ (128 + c / 64 % 64) ∷ (128 + c % 64) ∷ []

abbrev pub utf8 : String → Bytes
utf8 String.[] = []
utf8 (String.◌∷◌ c s) = encode (code c) ++ utf8 s

-- A wide text: its code points, which are below 2 ^ 16.
abbrev pub wide : String → Bytes
wide String.[] = []
wide (String.◌∷◌ c s) = code c ∷ wide s

-- `operator ==` of strings.
unfoldable pub equal : Bytes → Bytes → Bool
equal [] [] = true
equal (x ∷ xs) (y ∷ ys) = x == y && equal xs ys
equal _ _ = false

pub equal_iff : (s t : Bytes) → (equal s t ≡ true) ↔ (s ≡ t)
unfolding equal
equal_iff [] [] = (λ _. refl, λ _. refl)
equal_iff [] (y ∷ t) = (λ h. cc, λ h. cc)
equal_iff (x ∷ s) [] = (λ h. cc, λ h. cc)
equal_iff (x ∷ s) (y ∷ t) = ground (arith, equal_iff s t)

pub equal_refl : (s : Bytes) → equal s s ≡ true
equal_refl s = (equal_iff s s).1 refl

pub equal_apart : (s t : Bytes) → equal s t ≡ false → s ≢ t
equal_apart s t h e = let same = (equal_iff s t).1 e in cc

-- `find(c) != npos` in a set of characters.
unfoldable pub among : ℕ → Bytes → Bool
among c [] = false
among c (d ∷ ds) = c == d || among c ds
