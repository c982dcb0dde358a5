-- ===== src/Agent/Probe/Policy/Reachable.antt =====
-- The addresses that agent/probe/policy.go lets a probe reach.
use mathlib.Core.Path.{subst}
use xisnove.Prelude.{
  ℕ, ◌≡◌, refl, ◌≢◌, ◌↔◌, ◌⊎◌, ◌*◌, ◌^◌, ◌≤◌, ◌<◌, String, Bool, true, false, not, ◌||◌, ◌&&◌, ◌==◌,
  ◌/◌, List, [], ◌∷◌, any, All, Option, none, some, arith, Bool-cases, inl, inr, if◌then◌else◌,
}
use xisnove.Prelude.Text.{is_empty, trim_dot}
use xisnove.Agent.Probe.Addresses.{
  Addr, Prefix, invalid, v4, v6, contains, unmap, is_6, is_metadata, is_loopback, is_private,
  is_link_local_unicast,
}
use xisnove.Agent.Probe.Policy.{
  Outcome, ok, failed, denied, Resolver, Policy, or_default, validated, resolved, literal_or,
  validate_address, validate_each, resolve_host,
}

pub ok_injective {ℓ} : {A : Type ℓ} {x y : A} → ok x ≡ ok y → x ≡ y
ok_injective h = cc

-- The number does not lie in lo .. hi - 1.
abbrev pub Outside : ℕ → ℕ → ℕ → Type 0
Outside lo hi n = (n < lo) ⊎ (hi ≤ n)

-- Outside of 10/8, 127/8, 169.254/16, 172.16/12, 192.168/16 and 224/4, and neither 0.0.0.0 nor
-- 255.255.255.255.
abbrev pub IsPublic4 : ℕ → Type 0
IsPublic4 n =
    (n ≢ 0)
    × Outside 0x0a000000 0x0b000000 n
    × Outside 0x7f000000 0x80000000 n
    × Outside 0xa9fe0000 0xa9ff0000 n
    × Outside 0xac100000 0xac200000 n
    × Outside 0xc0a80000 0xc0a90000 n
    × Outside 0xe0000000 0xf0000000 n
    × (n ≢ 0xffffffff)

-- Not ::1, and outside of fc00::/7, fe80::/10 and ff00::/8.
abbrev pub IsPublic6 : ℕ → Type 0
IsPublic6 n =
    (n ≢ 1)
    × Outside (0x7e * 2 ^ 121) (0x7f * 2 ^ 121) n
    × Outside (0x3fa * 2 ^ 118) (0x3fb * 2 ^ 118) n
    × Outside (0xff * 2 ^ 120) (2 ^ 128) n

validate_4 : (n : ℕ) → (validate_address [] (v4 n) ≡ ok tt) ↔ IsPublic4 n
unfolding validate_address unmap
validate_4 n = (λ e. ground (arith, e), λ h. ground (arith, h))

validate_6 :
    (n : ℕ) (zone : String)
    → n / 2 ^ 32 ≢ 0xffff
    → (validate_address [] (v6 n zone) ≡ ok tt)
      ↔ (((n ≢ 0) ⊎ (is_empty zone ≡ false)) × IsPublic6 n)
unfolding validate_address unmap
validate_6 n zone h = (λ e. ground (arith, e, h), λ p. ground (arith, h, p))

-- No mapped IPv4 address.
abbrev pub IsUnmapped : Addr → Type 0
IsUnmapped (v6 n zone) = n / 2 ^ 32 ≢ 0xffff
IsUnmapped _ = Unit

pub unmap-IsUnmapped : (a : Addr) → IsUnmapped (unmap a)
unfolding unmap
unmap-IsUnmapped invalid = tt
unmap-IsUnmapped (v4 n) = tt
unmap-IsUnmapped (v6 n zone) = elim (Bool-cases (n / 2 ^ 32 == 0xffff)) [
  | inl mapped ↦ rw mapped tt
  | inr other ↦ rw other (λ e. ground (arith, other, e))
]

-- An IPv6 address is public also where it is :: with a zone.
abbrev pub IsPublic : Addr → Type 0
IsPublic invalid = ⊥
IsPublic (v4 n) = IsPublic4 n
IsPublic (v6 n zone) = ((n ≢ 0) ⊎ (is_empty zone ≡ false)) × IsPublic6 n

-- Loopback, private and link-local addresses, except 169.254.169.254 and fe80::/10.
abbrev pub IsInternal : Addr → Type 0
unfolding unmap
IsInternal a =
    ((is_loopback a || is_private a || is_link_local_unicast a) ≡ true)
    × (is_metadata a ≡ false)
    × ((is_6 a && is_link_local_unicast a) ≡ false)

abbrev pub Reachable : List Prefix → Addr → Type 0
unfolding IsInternal
Reachable allowed a =
    IsPublic a ⊎ (IsInternal a × (any (λ prefix. contains prefix a) allowed ≡ true))

-- The tests of validateAddress, for the three groups of addresses and the allowed prefixes.
abbrev judged : Bool → Bool → Bool → Bool → Outcome (Unit {0})
judged prohibited internal allowed global =
    if prohibited
    then failed (denied "prohibited address")
    else if internal
    then (if allowed then ok tt else failed (denied "private address"))
    else if not global
    then failed (denied "non-global address")
    else ok tt

judged_cases :
    (prohibited internal allowed global : Bool)
    → judged prohibited internal allowed global ≡ ok tt
    → (judged prohibited internal false global ≡ ok tt)
      ⊎ ((prohibited ≡ false) × (internal ≡ true) × (allowed ≡ true))
judged_cases true internal allowed global e = absurd (ground (arith, e))
judged_cases false true true global e = inr (refl, refl, refl)
judged_cases false true false global e = absurd (ground (arith, e))
judged_cases false false allowed global e = inl e

-- What is accepted when some prefixes are allowed, by what is accepted without them.
validate_cases :
    (allowed : List Prefix) (a : Addr)
    → validate_address allowed a ≡ ok tt
    → (validate_address [] a ≡ ok tt)
      ⊎ (IsInternal a × (any (λ prefix. contains prefix a) allowed ≡ true))
unfolding validate_address IsInternal
validate_cases allowed a e = elim (judged_cases _ _ _ _ e) [
  | inl public ↦ inl public
  | inr (permitted, internal, inside) ↦
      inr ((internal, ground (arith, permitted), ground (arith, permitted)), inside)
]

-- When no prefix is allowed, an address other than a mapped IPv4 one is accepted exactly when it is
-- public. Of IPv4 that are the addresses outside of 10/8, 127/8, 169.254/16, 172.16/12, 192.168/16 and
-- 224/4, without 0.0.0.0 and 255.255.255.255; of IPv6 the addresses outside of fc00::/7, fe80::/10 and
-- ff00::/8, without ::1 and without ::, but with :: that has a zone.
pub validate_address-IsPublic :
    (a : Addr) → IsUnmapped a → (validate_address [] a ≡ ok tt) ↔ IsPublic a
unfolding validate_address
validate_address-IsPublic invalid h = ground arith
validate_address-IsPublic (v4 n) h = validate_4 n
validate_address-IsPublic (v6 n zone) h = validate_6 n zone h

pub validate_address-Reachable :
    (allowed : List Prefix) (a : Addr)
    → IsUnmapped a
    → validate_address allowed a ≡ ok tt
    → Reachable allowed a
unfolding Reachable
validate_address-Reachable allowed a h e = elim (validate_cases allowed a e) [
  | inl public ↦ inl ((validate_address-IsPublic a h).0 public)
  | inr internal ↦ inr internal
]

validated-Reachable :
    (allowed : List Prefix) (a : Addr) (verdict : Outcome (Unit {0})) (rest : Outcome (List Addr))
    (found : List Addr)
    → IsUnmapped a
    → validate_address allowed a ≡ verdict
    → ((others : List Addr) → rest ≡ ok others → All (Reachable allowed) others)
    → validated a verdict rest ≡ ok found
    → (found ≢ []) × All (Reachable allowed) found
validated-Reachable allowed a (failed x) rest found h e more same = absurd (ground (arith, same))
validated-Reachable allowed a (ok u) (failed x) found h e more same = absurd (ground (arith, same))
validated-Reachable allowed a (ok u) (ok others) found h e more same =
    let reach : All (Reachable allowed) (a ∷ others) =
      (validate_address-Reachable allowed a h e, more others refl) in
    (
      λ none_found. absurd (ground (arith, same, none_found)),
      subst (All (Reachable allowed)) (ok_injective same) reach,
    )

validate_each-Reachable :
    (allowed : List Prefix) (addresses found : List Addr)
    → validate_each allowed addresses ≡ ok found
    → All (Reachable allowed) found
unfolding validate_each
validate_each-Reachable allowed [] found e = subst (All (Reachable allowed)) (ok_injective e) tt
validate_each-Reachable allowed (a ∷ rest) found e =
    (validated-Reachable allowed (unmap a) (validate_address allowed (unmap a))
      (validate_each allowed rest) found (unmap-IsUnmapped a) refl
      (λ others h. validate_each-Reachable allowed rest others h) e).1

module _ (parse_addr : String → Option Addr) (default : Resolver) where
  -- Whatever the resolver answers, a host resolves to addresses, at least one, that are all public, or
  -- of an allowed prefix and loopback, private or link-local. They are never 169.254.169.254, and of
  -- fe80::/10 never.
  pub resolve_host-Reachable :
      (p : Policy) (host : String) (found : List Addr)
      → resolve_host parse_addr default p host ≡ ok found
      → (found ≢ []) × All (Reachable p.allowed_private) found
  unfolding resolve_host literal_or resolved validate_each
  resolve_host-Reachable p host found e =
      named (parse_addr (trim_dot host)) (or_default p.resolver default (trim_dot host)) e
    where
      looked_up :
          (answer : Outcome (List Addr))
          → resolved p.allowed_private answer ≡ ok found
          → (found ≢ []) × All (Reachable p.allowed_private) found
      looked_up (failed x) e = absurd (ground (arith, e))
      looked_up (ok []) e = absurd (ground (arith, e))
      looked_up (ok (a ∷ rest)) e =
          validated-Reachable p.allowed_private (unmap a) _ (validate_each p.allowed_private rest)
            found (unmap-IsUnmapped a) refl (λ others h. validate_each-Reachable _ rest others h) e

      named :
          (literal : Option Addr) (answer : Outcome (List Addr))
          → literal_or p.allowed_private literal (resolved p.allowed_private answer) ≡ ok found
          → (found ≢ []) × All (Reachable p.allowed_private) found
      named none answer e = looked_up answer e
      named (some a) answer e =
          validated-Reachable p.allowed_private (unmap a) _ (ok []) found (unmap-IsUnmapped a) refl
            (λ others h. subst (All (Reachable p.allowed_private)) (ok_injective h) tt) e
