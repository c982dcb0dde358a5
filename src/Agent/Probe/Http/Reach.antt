-- ===== src/Agent/Probe/Http/Reach.antt =====
-- Where a probe of agent/probe/http.go connects to and which redirects it follows.
use mathlib.Core.Path.{subst}
use xisnove.Prelude.{
  ℕ, ◌≡◌, refl, ◌≢◌, String, Bool, true, false, List, [], ◌∷◌, Option, none, some, All, arith,
  Bool-cases, inl, inr,
}
use xisnove.Prelude.Int.{pos, ◌≤ℤ◌, ltb_ℤ}
use xisnove.Prelude.Text.{trim_dot}
use xisnove.Agent.Probe.Addresses.{Addr, unmap}
use xisnove.Agent.Probe.Policy.{NetworkError, Outcome, ok, failed, Policy, Url}
use xisnove.Agent.Probe.Policy.Web.{IsWebUrl, validate_url-IsWebUrl}
use xisnove.Agent.Probe.Policy.Reachable.{
  Reachable, resolve_host-Reachable, validate_address-Reachable, unmap-IsUnmapped, ok_injective,
}
use xisnove.Agent.Probe.Steps.Rules.{some_injective}
use xisnove.Agent.Probe.Http.{
  HttpOutside, Redirect, follow, judge, literal_verdict, check_redirect, dialled, dial_each,
  resolved_first, dial_context,
}

module _ (outside : HttpOutside) (p : Policy) where
  -- The connection that is made.
  abbrev pub IsConnection : String → Option Addr → Type 0
  IsConnection port connection =
      (a : Addr) × (connection ≡ some a)
      × (outside.dial a port ≡ none)
      × Reachable p.allowed_private a

  -- The address that the loop comes to, if it does not end without an error.
  tried :
      (port : String) (a : Addr) (answer : Option NetworkError)
      (next : NetworkError → Outcome (Option Addr)) (connection : Option Addr)
      → Reachable p.allowed_private a
      → outside.dial a port ≡ answer
      → ((e : NetworkError) → next e ≡ ok connection → IsConnection port connection)
      → dialled outside a answer next ≡ ok connection
      → IsConnection port connection
  unfolding dialled
  tried port a none next connection reach h more e =
      subst (IsConnection port) (ok_injective e) (a, refl, h, reach)
  tried port a (some x) next connection reach h more e = more x e

  each_failed :
      (port : String) (last : NetworkError) (addresses : List Addr) (connection : Option Addr)
      → All (Reachable p.allowed_private) addresses
      → dial_each outside port (some last) addresses ≡ ok connection
      → IsConnection port connection
  unfolding dial_each
  each_failed port last [] connection reach e = absurd (ground (arith, e))
  each_failed port last (a ∷ rest) connection (near, far) e =
      tried port a (outside.dial a port) _ connection near refl
        (λ x h. each_failed port x rest connection far h) e

  resolved-Reachable :
      (port : String) (found : Outcome (List Addr)) (connection : Option Addr)
      → ((addresses : List Addr)
          → found ≡ ok addresses
          → (addresses ≢ []) × All (Reachable p.allowed_private) addresses)
      → resolved_first outside found port ≡ ok connection
      → IsConnection port connection
  unfolding resolved_first dial_each
  resolved-Reachable port (failed x) connection h e = absurd (ground (arith, e))
  resolved-Reachable port (ok []) connection h e = absurd ((h [] refl).0 refl)
  resolved-Reachable port (ok (a ∷ rest)) connection h e =
      let reach = (h (a ∷ rest) refl).1 in
      tried port a (outside.dial a port) _ connection reach.0 refl
        (λ x h. each_failed port x rest connection reach.1 h) e

  -- What a HTTP probe connects to: if DialContext returns no error, it returns a connection, to an address
  -- that is reachable, and that answered.
  pub dial_context-Reachable :
      (host port : String) (connection : Option Addr)
      → dial_context outside p host port ≡ ok connection
      → IsConnection port connection
  unfolding dial_context
  dial_context-Reachable host port connection e =
      resolved-Reachable port _ connection
        (resolve_host-Reachable outside.parse_addr outside.resolver p host) e

  judged :
      (verdict : Outcome (Unit {0})) (next : Redirect)
      → judge verdict next ≡ follow
      → (verdict ≡ ok tt) × (next ≡ follow)
  judged (ok u) next h = (refl, h)
  judged (failed x) next h = absurd (ground (arith, h))

  literal-Reachable :
      (literal : Option Addr)
      → literal_verdict p literal ≡ follow
      → (a : Addr) → literal ≡ some a
      → Reachable p.allowed_private (unmap a)
  literal-Reachable none h a e = absurd (ground (arith, e))
  literal-Reachable (some b) h a e =
      subst (λ x. Reachable p.allowed_private (unmap x)) (some_injective e)
        (validate_address-Reachable p.allowed_private (unmap b) (unmap-IsUnmapped b)
          (judged _ follow h).0)

  -- A redirect is followed only if the probe allows redirects, no more than the policy's maximum have been
  -- followed, the new URL has the scheme http or https and a host, and the host, when it is an address,
  -- is a reachable one.
  pub check_redirect-follow :
      (follow_redirects : Bool) (target : Url) (via : ℕ)
      → check_redirect outside p follow_redirects target via ≡ follow
      → (follow_redirects ≡ true)
        × (pos via ≤ℤ p.max_redirects)
        × IsWebUrl target
        × ((a : Addr)
            → outside.parse_addr (trim_dot target.hostname) ≡ some a
            → Reachable p.allowed_private (unmap a))
  unfolding check_redirect
  check_redirect-follow false target via h = absurd (ground (arith, h))
  check_redirect-follow true target via h = elim (Bool-cases (ltb_ℤ p.max_redirects (pos via))) [
    | inl over ↦ absurd (ground (arith, rw over at h))
    | inr within ↦
        let (valid, next) = judged _ _ (rw within at h) in
        (refl, ground (arith, within), validate_url-IsWebUrl target valid, literal-Reachable _ next)
  ]
