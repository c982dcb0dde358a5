-- ===== src/Agent/Probe/Dns/Exchange.antt =====
-- What a server is asked in agent/probe/dns.go, which of its answers counts, and what the values of
-- the answer have to be.
use xisnove.Prelude.{
  ℕ, ◌≡◌, refl, String, Bool, true, false, List, [], ◌∷◌, any, all, All, Bool-cases, arith, ◌⊎◌,
  inl, inr, if◌then◌else◌,
}
use xisnove.Agent.Probe.Addresses.{Addr}
use xisnove.Agent.Probe.Policy.{Outcome, Policy, resolve_host, ok, failed}
use xisnove.Agent.Probe.Policy.Reachable.{resolve_host-Reachable, ok_injective}
use xisnove.Agent.Probe.Dns.{Response, DnsOutside}
use xisnove.Agent.Probe.Dns.Execute.{exchange_twice, retried, first_address}
use xisnove.Agent.Probe.Dns.Canonical.{canonical_expected, each_expected}
use text.Mathlib.Text.{◌==◌ as str_eq}
use text.Mathlib.TextEquality.{eq_iff}
use mathlib.Core.List.{Mem, mem-cons_self, mem-cons_of_mem}
use mathlib.Core.Path.{subst}

any-Mem :
    (wanted : String) (values : List String)
    → any (λ v. str_eq v wanted) values ≡ true
    → Mem wanted values
any-Mem wanted [] h = absurd (ground (arith, h))
any-Mem wanted (v ∷ values) h = elim (Bool-cases (str_eq v wanted)) [
  | inl e ↦ subst (λ x. Mem x (v ∷ values)) ((eq_iff v wanted).0 e) mem-cons_self
  | inr e ↦ mem-cons_of_mem v (any-Mem wanted values (ground (arith, h, e)))
]

module _ (outside : DnsOutside) where
  -- A server's answer to the question: the one over UDP, or, where that is truncated, the one over TCP.
  abbrev pub IsAnswer : Addr → ℕ → String → ℕ → Response → Type 0
  IsAnswer server port name type response =
      (first : Response) × (outside.exchange false server port name type ≡ ok first)
      × (((first.truncated ≡ false) × (first ≡ response))
          ⊎ ((first.truncated ≡ true)
              × (outside.exchange true server port name type ≡ ok response)))

  pub exchange_twice-IsAnswer :
      (server : Addr) (port : ℕ) (name : String) (type : ℕ) (response : Response)
      → exchange_twice outside server port name type ≡ ok response
      → IsAnswer server port name type response
  unfolding exchange_twice
  exchange_twice-IsAnswer server port name type response e =
      answered (outside.exchange false server port name type) refl e
    where
      untruncated :
          (first : Response) (test : Bool)
          → first.truncated ≡ test
          → (if test then outside.exchange true server port name type else ok first) ≡ ok response
          → ((first.truncated ≡ false) × (first ≡ response))
            ⊎ ((first.truncated ≡ true)
                × (outside.exchange true server port name type ≡ ok response))
      untruncated first true h e = inr (h, e)
      untruncated first false h e = inl (h, ok_injective e)

      answered :
          (over_udp : Outcome Response)
          → outside.exchange false server port name type ≡ over_udp
          → retried outside over_udp (outside.exchange true server port name type) ≡ ok response
          → IsAnswer server port name type response
      answered (failed x) h e = absurd (ground (arith, e))
      answered (ok first) h e = (first, h, untruncated first first.truncated refl e)

  -- The first of the addresses, of which there is one at least.
  pub first_of :
      (p : Policy) (host : String) (addresses : List Addr)
      → resolve_host outside.parse_addr outside.resolver p host ≡ ok addresses
      → (others : List Addr) × (resolve_host outside.parse_addr outside.resolver p host
          ≡ ok (first_address outside addresses ∷ others))
  first_of p host [] h =
      absurd ((resolve_host-Reachable outside.parse_addr outside.resolver p host [] h).0 refl)
  first_of p host (a ∷ others) h = (others, h)

  -- The canonical form of every expected value is one of the values.
  pub each_expected-Mem :
      (values expected : List String) (type : ℕ)
      → all (λ wanted. any (λ v. str_eq v wanted) values) (each_expected outside expected type)
        ≡ true
      → All (λ value. Mem (canonical_expected outside type value) values) expected
  unfolding each_expected
  each_expected-Mem values [] type h = tt
  each_expected-Mem values (value ∷ rest) type h = (
    any-Mem (canonical_expected outside type value) values (ground (arith, h)),
    each_expected-Mem values rest type (ground (arith, h)),
  )
