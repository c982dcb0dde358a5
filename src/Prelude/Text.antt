-- ===== src/Prelude/Text.antt =====
-- The functions of Go's package `strings` that the program uses, on native texts.
pub mod Trimmed
use Prim.Native.Nat.{ℕ}
use Prim.Native.Char.{Char, code}
use Prim.Native.String.{String, [], ◌∷◌}
use mathlib.Core.Path.{◌≡◌, refl, sym}
use mathlib.Core.Logic.{inl, inr}
use mathlib.Core.Bool.{Bool, true, false, ◌&&◌, ◌||◌}
use native.Mathlib.Omega.{arith}
use xisnove.Prelude.Tests.{leb, ◌==◌, if◌then◌else◌, Bool-cases}

-- s == ""
abbrev pub is_empty : String → Bool
is_empty [] = true
is_empty (c ∷ s) = false

-- unicode.IsSpace, on code points
abbrev pub is_space : ℕ → Bool
is_space c =
    (leb 9 c && leb c 13)
    || c == 32
    || c == 0x85
    || c == 0xA0
    || c == 0x1680
    || (leb 0x2000 c && leb c 0x200A)
    || c == 0x2028
    || c == 0x2029
    || c == 0x202F
    || c == 0x205F
    || c == 0x3000

unfoldable pub trim_left : String → String
trim_left [] = []
trim_left (c ∷ s) = if is_space (code c) then trim_left s else c ∷ s

unfoldable pub trim_right : String → String
trim_right [] = []
trim_right (c ∷ s) =
    let rest = trim_right s in if is_space (code c) && is_empty rest then [] else c ∷ rest

-- strings.TrimSpace
unfoldable pub trim_space : String → String
unfolding trim_left trim_right
trim_space s = trim_right (trim_left s)

-- strings.TrimSuffix(s, ".")
unfoldable pub trim_dot : String → String
trim_dot [] = []
trim_dot (c ∷ s) =
    let rest = trim_dot s in
    if is_empty s then (if code c == b'.' then [] else c ∷ []) else c ∷ rest
