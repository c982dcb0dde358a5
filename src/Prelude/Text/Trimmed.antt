-- ===== src/Prelude/Text/Trimmed.antt =====
-- Laws of `strings.TrimSpace` and `strings.TrimSuffix`.
use Prim.Native.Char.{code}
use Prim.Native.String.{String, [], ◌∷◌}
use mathlib.Core.Path.{◌≡◌, refl, ◌∙◌, ap}
use mathlib.Core.Logic.{inl, inr}
use mathlib.Core.Bool.{false, ◌&&◌}
use xisnove.Prelude.Tests.{Bool-cases}
use xisnove.Prelude.Text.{is_empty, is_space, trim_left, trim_right, trim_space}

-- A text that does not begin with a space.
abbrev StartsClean : String → Type 0
StartsClean [] = Unit
StartsClean (c ∷ s) = is_space (code c) ≡ false

trim_left_clean : (s : String) → StartsClean (trim_left s)
unfolding trim_left
trim_left_clean [] = tt
trim_left_clean (c ∷ s) = elim (Bool-cases (is_space (code c))) [
  | inl e ↦ rw e (trim_left_clean s)
  | inr e ↦ rw e e
]

trim_left_eq : (s : String) → StartsClean s → trim_left s ≡ s
unfolding trim_left
trim_left_eq [] h = refl
trim_left_eq (c ∷ s) h = rw h

trim_right_clean : (s : String) → StartsClean s → StartsClean (trim_right s)
unfolding trim_right
trim_right_clean [] h = tt
trim_right_clean (c ∷ s) h = rw h h

trim_right_idem : (s : String) → trim_right (trim_right s) ≡ trim_right s
unfolding trim_right
trim_right_idem [] = refl
trim_right_idem (c ∷ s) = elim (Bool-cases (is_space (code c) && is_empty (trim_right s))) [
  | inl e ↦ rw e
  | inr e ↦ rw (e, trim_right_idem s, e)
]

pub trim_space_idem : (s : String) → trim_space (trim_space s) ≡ trim_space s
unfolding trim_space
trim_space_idem s =
    ap trim_right (trim_left_eq _ (trim_right_clean (trim_left s) (trim_left_clean s)))
    ∙ trim_right_idem (trim_left s)
