-- ===== src/Base/Texts.antt =====
-- Texts that the program takes apart, as lists of character codes, and `String.prototype` on them.
-- Case is that of ASCII: the texts compared with a lower-case literal are ASCII.
use Prim.Native.Nat.{ℕ, ◌+◌}
use Prim.Native.String.{String}
use Prim.Native.Char.{code}
use mathlib.Core.Path.{◌≡◌, refl}
use mathlib.Core.Bool.{Bool, true, false, ◌&&◌, ◌||◌}
use mathlib.Core.List.{List, [], ◌∷◌, ◌++◌, map}
use native.Mathlib.Omega.{arith}
use coder_er.Base.Tests.{leb, if◌then◌else◌}
use coder_er.Base.Eq.{◌==◌, nat_equality}

abbrev pub Text : Type 0
Text = List ℕ

abbrev pub codes : String → Text
codes String.[] = []
codes (String.◌∷◌ c s) = code c ∷ codes s

abbrev pub lower_code : ℕ → ℕ
lower_code c = if leb 65 c && leb c 90 then c + 32 else c

-- `toLowerCase`.
abbrev pub lower : Text → Text
lower = map lower_code

-- `startsWith`, the prefix last.
abbrev pub starts_with : Text → Text → Bool
starts_with s [] = true
starts_with [] (p ∷ ps) = false
starts_with (c ∷ s) (p ∷ ps) = c == p && starts_with s ps

-- `includes` of a text.
abbrev pub includes_text : Text → Text → Bool
includes_text [] p = starts_with [] p
includes_text (c ∷ s) p = starts_with (c ∷ s) p || includes_text s p

pub starts_with-append : (p s : Text) → starts_with (p ++ s) p ≡ true
starts_with-append [] s = refl
starts_with-append (c ∷ p) s = ground (arith, starts_with-append p s)
