-- ===== src/Prelude/Int.antt =====
-- Signed integers, and the 64-bit ones of Go: wrap-around, saturation and truncated division.
use Prim.Native.Nat.{ℕ, suc, ◌+◌, ◌-◌, ◌*◌, ◌/◌, ◌%◌, ◌^◌, ◌≤◌, ◌<◌}
use mathlib.Core.Path.{◌≡◌}
use mathlib.Core.Bool.{Bool}
use native.Mathlib.Omega.{arith}
use xisnove.Prelude.Tests.{ltb, leb, ◌==◌, if◌then◌else◌}

-- `negsuc n` is -(n + 1).
pub data ℤ : Type 0 where
  pos : ℕ → ℤ
  negsuc : ℕ → ℤ

abbrev pub pos_part : ℤ → ℕ
pos_part (pos n) = n
pos_part (negsuc n) = 0

abbrev pub neg_part : ℤ → ℕ
neg_part (pos n) = 0
neg_part (negsuc n) = suc n

abbrev pub sub_ℕ : ℕ → ℕ → ℤ
sub_ℕ a b = if leb b a then pos (a - b) else negsuc (b - a - 1)

infixl 65 ◌+ℤ◌ ◌-ℤ◌
infixl 70 ◌*ℤ◌
infix 50 ◌≤ℤ◌ ◌<ℤ◌
unfoldable pub ◌+ℤ◌ : ℤ → ℤ → ℤ
a +ℤ b = sub_ℕ (pos_part a + pos_part b) (neg_part a + neg_part b)

unfoldable pub ◌-ℤ◌ : ℤ → ℤ → ℤ
a -ℤ b = sub_ℕ (pos_part a + neg_part b) (neg_part a + pos_part b)

unfoldable pub ◌*ℤ◌ : ℤ → ℤ → ℤ
a *ℤ b =
    sub_ℕ (pos_part a * pos_part b + neg_part a * neg_part b)
      (pos_part a * neg_part b + neg_part a * pos_part b)

abbrev pub ◌≤ℤ◌ : ℤ → ℤ → Type 0
a ≤ℤ b = pos_part a + neg_part b ≤ pos_part b + neg_part a

abbrev pub ◌<ℤ◌ : ℤ → ℤ → Type 0
a <ℤ b = pos_part a + neg_part b < pos_part b + neg_part a

abbrev pub ltb_ℤ : ℤ → ℤ → Bool
ltb_ℤ a b = ltb (pos_part a + neg_part b) (pos_part b + neg_part a)

abbrev pub leb_ℤ : ℤ → ℤ → Bool
leb_ℤ a b = leb (pos_part a + neg_part b) (pos_part b + neg_part a)

abbrev pub eqb_ℤ : ℤ → ℤ → Bool
eqb_ℤ a b = pos_part a + neg_part b == pos_part b + neg_part a

-- The value in -2^63 .. 2^63 - 1 that agrees modulo 2^64.
unfoldable pub i64 : ℤ → ℤ
i64 a =
    let residue = (pos_part a + 2 ^ 64 - neg_part a % 2 ^ 64) % 2 ^ 64 in
    if ltb residue (2 ^ 63) then pos residue else sub_ℕ residue (2 ^ 64)

-- The value in -2^31 .. 2^31 - 1 that agrees modulo 2^32.
unfoldable pub i32 : ℤ → ℤ
i32 a =
    let residue = (pos_part a + 2 ^ 32 - neg_part a % 2 ^ 32) % 2 ^ 32 in
    if ltb residue (2 ^ 31) then pos residue else sub_ℕ residue (2 ^ 32)

-- The value in 0 .. 2^16 - 1 that agrees modulo 2^16.
unfoldable pub u16 : ℤ → ℕ
u16 a = (pos_part a + 2 ^ 16 - neg_part a % 2 ^ 16) % 2 ^ 16

-- The nearest value in -2^63 .. 2^63 - 1.
unfoldable pub saturate : ℤ → ℤ
saturate a =
    if leb (2 ^ 63) (pos_part a)
    then pos (2 ^ 63 - 1)
    else if ltb (2 ^ 63) (neg_part a)
    then negsuc (2 ^ 63 - 1)
    else a

-- Division that truncates towards zero; a divisor 0, at which Go panics, gives 0 here.
unfoldable pub quot : ℤ → ℤ → ℤ
quot a b =
    sub_ℕ (pos_part a / pos_part b + neg_part a / neg_part b)
      (pos_part a / neg_part b + neg_part a / pos_part b)

pub record IsInt64 (a : ℤ) : Type 0 where
  pub above : neg_part a ≤ 2 ^ 63
  pub below : pos_part a < 2 ^ 63

pub record IsInt32 (a : ℤ) : Type 0 where
  pub above : neg_part a ≤ 2 ^ 31
  pub below : pos_part a < 2 ^ 31

pub i32-eq : (a : ℤ) → IsInt32 a → i32 a ≡ a
unfolding i32
i32-eq (pos n) h = ground arith
i32-eq (negsuc n) h = ground arith

pub i64-eq : (a : ℤ) → IsInt64 a → i64 a ≡ a
unfolding i64
i64-eq (pos n) h = ground arith
i64-eq (negsuc n) h = ground arith

i64-IsInt64 : (a : ℤ) → IsInt64 (i64 a)
unfolding i64
i64-IsInt64 (pos n) = ground arith
i64-IsInt64 (negsuc n) = ground arith

pub saturate-eq : (a : ℤ) → IsInt64 a → saturate a ≡ a
unfolding saturate
saturate-eq (pos n) h = ground arith
saturate-eq (negsuc n) h = ground arith

pub +ℤ_parts :
    (a b : ℤ)
    → pos_part (a +ℤ b) + neg_part a + neg_part b ≡ neg_part (a +ℤ b) + pos_part a + pos_part b
unfolding ◌+ℤ◌
+ℤ_parts a b = ground arith

pub -ℤ_parts :
    (a b : ℤ)
    → pos_part (a -ℤ b) + neg_part a + pos_part b ≡ neg_part (a -ℤ b) + pos_part a + neg_part b
unfolding ◌-ℤ◌
-ℤ_parts a b = ground arith

pub eq_of_parts : (a b : ℤ) → pos_part a + neg_part b ≡ pos_part b + neg_part a → a ≡ b
eq_of_parts a b h = ground arith

pub ruleset int_laws = (arith, +ℤ_parts, -ℤ_parts, eq_of_parts)
