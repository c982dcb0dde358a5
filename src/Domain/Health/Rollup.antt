-- ===== src/Domain/Health/Rollup.antt =====
-- `RollupRequired` of internal/domain/health.go against the rules for required locations in
-- docs/superpowers/specs/2026-07-24-xisnove-v1-design.md.
use mathlib.Core.Logic.{∥∥₁_elim}
use mathlib.Core.List.{Perm, Permᴰ}
use text.Mathlib.TextEquality.{IsScalar-prop}
use xisnove.Prelude.{
  ℕ, suc, ◌+◌, ◌≤◌, ◌≡◌, refl, Bool, true, false, List, [], ◌∷◌, arith, if◌then◌else◌, length, all,
  any, ◌==◌, ap, ◌∙◌, sym,
}
use xisnove.Domain.Health.{
  HealthState, up, down, degraded, unknown, LocationHealth, rollup_from, rollup_required,
}

abbrev is_up : HealthState → Bool
is_up up = true
is_up _ = false

abbrev is_down : HealthState → Bool
is_down down = true
is_down _ = false

abbrev is_degraded : HealthState → Bool
is_degraded degraded = true
is_degraded _ = false

-- A location that has no fresh verdict, and says neither up nor down.
abbrev is_missing : HealthState → Bool
is_missing up = false
is_missing down = false
is_missing _ = true

-- The four rules, in their order.
unfoldable pub rollup_rules : List HealthState → HealthState
rollup_rules [] = unknown
rollup_rules (s ∷ states) =
    if any is_missing (s ∷ states)
    then unknown
    else if all is_up (s ∷ states)
    then up
    else if all is_down (s ∷ states)
    then down
    else degraded

abbrev pub states : List LocationHealth → List HealthState
states [] = []
states (location ∷ rest) = location.state ∷ states rest

ups : List HealthState → ℕ
ups [] = 0
ups (s ∷ rest) = let n = ups rest in if is_up s then suc n else n

downs : List HealthState → ℕ
downs [] = 0
downs (s ∷ rest) = let n = downs rest in if is_down s then suc n else n

ups-le : (xs : List HealthState) → ups xs ≤ length xs
unfolding ups
ups-le [] = omega arith
ups-le (s ∷ rest) = ground (arith, ups-le rest)

downs-le : (xs : List HealthState) → downs xs ≤ length xs
unfolding downs
downs-le [] = omega arith
downs-le (s ∷ rest) = ground (arith, downs-le rest)

all_up-ups : (xs : List HealthState) → all is_up xs ≡ (ups xs == length xs)
unfolding ups
all_up-ups [] = refl
all_up-ups (s ∷ rest) = ground (arith, all_up-ups rest, ups-le rest)

all_down-downs : (xs : List HealthState) → all is_down xs ≡ (downs xs == length xs)
unfolding downs
all_down-downs [] = refl
all_down-downs (s ∷ rest) = ground (arith, all_down-downs rest, downs-le rest)

-- The loop, over its accumulators.
rollup_from-eq :
    (n u d : ℕ) (xs : List LocationHealth)
    → any is_degraded (states xs) ≡ false
    → rollup_from n u d xs ≡ (
        if any is_missing (states xs)
        then unknown
        else if u + ups (states xs) == n
        then up
        else if d + downs (states xs) == n
        then down
        else degraded)
unfolding rollup_from ups downs
rollup_from-eq n u d [] h = ground arith
rollup_from-eq n u d (x ∷ rest) h =
    ground (arith, rollup_from-eq n (u + 1) d rest, rollup_from-eq n u (d + 1) rest)

length-states : (xs : List LocationHealth) → length (states xs) ≡ length xs
length-states [] = refl
length-states (x ∷ rest) = ap suc (length-states rest)

-- For locations of which none is degraded, `RollupRequired` follows the four rules in their order.
pub rollup_required-rules :
    (xs : List LocationHealth)
    → any is_degraded (states xs) ≡ false
    → rollup_required xs ≡ rollup_rules (states xs)
unfolding rollup_required rollup_rules
rollup_required-rules [] h = refl
rollup_required-rules (x ∷ rest) h = ground (
  arith,
  rollup_from-eq (suc (length rest)) 0 0 (x ∷ rest) h,
  length-states rest,
  all_up-ups (states (x ∷ rest)),
  all_down-downs (states (x ∷ rest)),
)

module _ {ℓ} {A : Type ℓ} (p : A → Bool) where
  any-perm : {xs ys : List A} → Permᴰ xs ys → any p xs ≡ any p ys
  any-perm Permᴰ.nil = refl
  any-perm (Permᴰ.cons e d) = ground (arith, any-perm d, ap p e)
  any-perm (Permᴰ.swap e f) = ground (arith, ap p e, ap p f)
  any-perm (Permᴰ.trans c d) = any-perm c ∙ any-perm d

  all-perm : {xs ys : List A} → Permᴰ xs ys → all p xs ≡ all p ys
  all-perm Permᴰ.nil = refl
  all-perm (Permᴰ.cons e d) = ground (arith, all-perm d, ap p e)
  all-perm (Permᴰ.swap e f) = ground (arith, ap p e, ap p f)
  all-perm (Permᴰ.trans c d) = all-perm c ∙ all-perm d

HealthState-set : IsSet HealthState
HealthState-set = hlevel IsScalar-prop

-- The rules read of a list that is not empty only these tests.
rollup_tests :
    (s : HealthState) (xs : List HealthState)
    → rollup_rules (s ∷ xs) ≡ (
        if any is_missing (s ∷ xs)
        then unknown
        else if all is_up (s ∷ xs)
        then up
        else if all is_down (s ∷ xs)
        then down
        else degraded)
unfolding rollup_rules
rollup_tests s xs = refl

rollup_rules-perm : {xs ys : List HealthState} → Permᴰ xs ys → rollup_rules xs ≡ rollup_rules ys
rollup_rules-perm Permᴰ.nil = refl
rollup_rules-perm (Permᴰ.trans c d) = rollup_rules-perm c ∙ rollup_rules-perm d
rollup_rules-perm (Permᴰ.cons {a = a} {b = b} {l₁ = l₁} {l₂ = l₂} e d) =
    let q : Permᴰ (a ∷ l₁) (b ∷ l₂) = Permᴰ.cons e d in
    rollup_tests a l₁
    ∙ rw (any-perm is_missing q, all-perm is_up q, all-perm is_down q) (sym (rollup_tests b l₂))
rollup_rules-perm (Permᴰ.swap {a = a} {b = b} {a' = a'} {b' = b'} {l = l} e f) =
    let q : Permᴰ (a ∷ b ∷ l) (a' ∷ b' ∷ l) = Permᴰ.swap e f in
    rollup_tests a (b ∷ l)
    ∙ rw (any-perm is_missing q, all-perm is_up q, all-perm is_down q)
        (sym (rollup_tests a' (b' ∷ l)))

states-perm : {xs ys : List LocationHealth} → Permᴰ xs ys → Permᴰ (states xs) (states ys)
states-perm Permᴰ.nil = Permᴰ.nil
states-perm (Permᴰ.cons e d) = Permᴰ.cons (ap (λ (x : LocationHealth). x.state) e) (states-perm d)
states-perm (Permᴰ.swap e f) =
    Permᴰ.swap (ap (λ (x : LocationHealth). x.state) e) (ap (λ (x : LocationHealth). x.state) f)
states-perm (Permᴰ.trans c d) = Permᴰ.trans (states-perm c) (states-perm d)

-- The order in which the required locations are listed does not matter, if none is degraded.
rollup_required-perm :
    (xs ys : List LocationHealth)
    → any is_degraded (states xs) ≡ false
    → Perm xs ys
    → rollup_required xs ≡ rollup_required ys
rollup_required-perm xs ys h p = ∥∥₁_elim p (HealthState-set _ _) (λ d.
    rollup_required-rules xs h
    ∙ rollup_rules-perm (states-perm d)
    ∙ sym (rollup_required-rules ys (sym (any-perm is_degraded (states-perm d)) ∙ h)))
