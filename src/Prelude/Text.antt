-- ===== src/Prelude/Text.antt =====
-- Go's strings.TrimSpace: white space is that of unicode.IsSpace.
use Prim.Native.Nat.{ℕ}
use Prim.Native.Char.{Char, code}
use Prim.Native.String.{String, [], ◌∷◌}
use mathlib.Core.Bool.{Bool, ◌||◌, ◌&&◌}
use sclaw.Prelude.Tests.{leb, ◌==◌, if◌then◌else◌}

between : ℕ → ℕ → ℕ → Bool
between lo hi n = leb lo n && leb n hi

unfoldable pub is_space : Char → Bool
unfolding between
is_space c =
    between 9 13 (code c)
    || (code c == 32)
    || (code c == 133)
    || (code c == 160)
    || (code c == 5760)
    || between 8192 8202 (code c)
    || between 8232 8233 (code c)
    || (code c == 8239)
    || (code c == 8287)
    || (code c == 12288)

trim_left : String → String
trim_left [] = []
trim_left (c ∷ s) = let rest = trim_left s in if is_space c then rest else c ∷ s

space_before : Char → String → String
space_before c [] = if is_space c then [] else c ∷ []
space_before c (d ∷ s) = c ∷ d ∷ s

trim_right : String → String
unfolding space_before
trim_right [] = []
trim_right (c ∷ s) = space_before c (trim_right s)

unfoldable pub trim_space : String → String
unfolding trim_left trim_right is_space
trim_space s = trim_right (trim_left s)
