-- ===== src/Agent/Probe/Tcp/Evidence.antt =====
-- What a TCP probe of agent/probe/tcp.go that passes has seen.
use mathlib.Core.Path.{subst}
use mathlib.Core.List.{Mem, mem-cons_self, mem-cons_of_mem}
use xisnove.Prelude.{
  ℕ, suc, ◌≡◌, refl, Bool, true, false, not, List, [], ◌∷◌, Option, none, some, arith,
  if◌then◌else◌,
}
use xisnove.Prelude.Int.{ℤ, pos, ◌*ℤ◌, ◌≤ℤ◌, i64, ltb_ℤ}
use xisnove.Prelude.Text.{trim_dot}
use xisnove.Domain.Health.{Time}
use xisnove.Agent.Controlplane.{ProbeWork, TcpProbeDefinition, protocol_error, tcp_expect_mismatch}
use xisnove.Agent.Probe.Addresses.{Addr}
use xisnove.Agent.Probe.Policy.{NetworkError, Outcome, Policy, resolve_host}
use xisnove.Agent.Probe.Policy as policy
use xisnove.Agent.Probe.Diagnostic.{diagnostic, unless_error, tcp_io_error_code}
use xisnove.Agent.Probe.Steps.{pure, stop, require}
use xisnove.Agent.Probe.Steps.Rules.{Yields, Yields-bind, Yields-require, Yields-any}
use xisnove.Agent.Probe.Steps.Fits.{value-Yields}
use xisnove.Agent.Probe.Tcp.Contains.{IsPart, contains_bytes-IsPart}
use xisnove.Agent.Probe.Tcp.{
  TcpOutside, Observed, max_tcp_payload_bytes, contains_bytes, read_until_expected,
  minimum_remaining, dial_validated, dialled, tcp_definition, accepted_definition,
  is_tcp_definition, is_kind, tls_steps, expect_steps, expect_observed, certificate_steps,
  tcp_checks, read_error,
}

outcome_injective : {x y : Addr} → policy.ok x ≡ policy.ok y → x ≡ y
outcome_injective h = cc

-- The address that dialValidated connects to.
dial_validated-Mem :
    (dial : Addr → ℤ → Option NetworkError) (port : ℤ) (last : Option NetworkError)
    (addresses : List Addr) (a : Addr)
    → dial_validated dial port last addresses ≡ policy.ok a
    → Mem a addresses × (dial a port ≡ none)
unfolding dial_validated
dial_validated-Mem dial port last [] a e = absurd (ground (arith, e))
dial_validated-Mem dial port last (b ∷ rest) a e =
    tried (dial b port) refl (λ x. dial_validated-Mem dial port (some x) rest a) e
  where
    tried :
        (answer : Option NetworkError)
        → dial b port ≡ answer
        → ((x : NetworkError)
            → dial_validated dial port (some x) rest ≡ policy.ok a
            → Mem a rest × (dial a port ≡ none))
        → dialled b answer (λ x. dial_validated dial port (some x) rest) ≡ policy.ok a
        → Mem a (b ∷ rest) × (dial a port ≡ none)
    tried none h more e =
        let same : b ≡ a = outcome_injective e in
        (subst (λ x. Mem x (b ∷ rest)) same mem-cons_self, subst (λ x. dial x port ≡ none) same h)
    tried (some x) h more e = let (m, d) = more x e in (mem-cons_of_mem b m, d)

module _ (outside : TcpOutside) (p : Policy) (work : ProbeWork) where
  -- The certificate of the connection is valid long enough, if that is asked for.
  abbrev pub Lasting : Option ℤ → Type 0
  Lasting none = Unit
  Lasting (some seconds) =
      (not_after : Time) × (others : List Time) × (outside.certificates ≡ not_after ∷ others)
      × (i64 (seconds *ℤ pos 1_000_000_000) ≤ℤ outside.until not_after)

  abbrev pub Answered : List ℕ → Type 0
  Answered [] = Unit
  Answered (b ∷ bytes) =
      (o : Observed) × (read_until_expected outside.read (b ∷ bytes) (suc max_tcp_payload_bytes) 0
          []
        ≡ some o)
      × IsPart o.bytes (b ∷ bytes)

  pub record Evidence : Type 0 where
    pub definition : TcpProbeDefinition
    pub asked : work.probe.as_tcp ≡ some definition
    pub addresses : List Addr
    pub resolved :
        resolve_host outside.parse_addr outside.resolver p (trim_dot definition.host)
        ≡ policy.ok addresses
    pub address : Addr
    pub connected : Mem address addresses × (outside.dial address definition.port ≡ none)
    pub lasting : Lasting definition.tls_minimum_remaining_seconds
    pub answered : Answered definition.expect

  definition-Yields :
      Yields (λ (d : TcpProbeDefinition). work.probe.as_tcp ≡ some d) (tcp_definition work.probe)
  unfolding tcp_definition
  definition-Yields =
      Yields-bind (λ u. Unit {0})
        (require (is_kind work.probe.discriminator "tcp") protocol_error "invalid TCP probe") _
        (Yields-any _) λ u x. accepted work.probe.as_tcp
    where
      tested :
          (d : TcpProbeDefinition) (test : Bool)
          → Yields
              (λ (e : TcpProbeDefinition). some d ≡ some e)
              (if test then pure d else stop protocol_error "invalid TCP probe")
      tested d true = record { at = λ r a e. e }
      tested d false = record { at = λ r a e. absurd (ground (arith, e)) }

      accepted :
          (given : Option TcpProbeDefinition)
          → Yields (λ (d : TcpProbeDefinition). given ≡ some d) (accepted_definition given)
      accepted none = record { at = λ r a e. absurd (ground (arith, e)) }
      accepted (some d) = tested d (is_tcp_definition d)

  tls-Yields : (seconds : Option ℤ) → Yields (λ u. Lasting seconds) (tls_steps outside seconds)
  unfolding tls_steps
  tls-Yields none = record { at = λ r a e. tt }
  tls-Yields (some seconds) =
      Yields-bind (λ u. Unit {0}) _ _ (Yields-any _)
        λ u x.
          Yields-bind (λ u. Unit {0}) _ _ (Yields-any _) λ u x. certified outside.certificates refl
    where
      certified :
          (certificates : List Time)
          → outside.certificates ≡ certificates
          → Yields (λ u. Lasting (some seconds)) (certificate_steps outside seconds certificates)
      certified [] h = record { at = λ r a e. absurd (ground (arith, e)) }
      certified (not_after ∷ others) h =
          Yields-bind (λ u. Unit {0}) _
            (λ u. require (not (ltb_ℤ (outside.until not_after) (minimum_remaining seconds))) _ _)
            (Yields-any _)
            λ u x. record {
              at = λ r a e.
                  let lasts = (Yields-require _ _ _).at r a e in
                  (not_after, others, h, ground (arith, lasts));
            }

  expect-Yields : (expect : List ℕ) → Yields (λ u. Answered expect) (expect_steps outside expect)
  unfolding expect_steps expect_observed
  expect-Yields [] = record { at = λ r a e. tt }
  expect-Yields (b ∷ bytes) = observed _ refl
    where
      observed :
          (o : Option Observed)
          → read_until_expected outside.read (b ∷ bytes) (suc max_tcp_payload_bytes) 0 [] ≡ o
          → Yields (λ u. Answered (b ∷ bytes)) (expect_observed outside (b ∷ bytes) o)
      observed none h = record { at = λ r a e. absurd (ground (arith, e)) }
      observed (some o) h =
          Yields-bind (λ u. Unit {0}) (unless_error tcp_io_error_code (read_error outside o.error))
            _ (Yields-any _)
            λ u x. record {
              at = λ r a e. (
                o,
                h,
                contains_bytes-IsPart o.bytes (b ∷ bytes) (
                    (Yields-require (contains_bytes o.bytes (b ∷ bytes)) tcp_expect_mismatch
                        (diagnostic (outside.text_of o.bytes))).at
                      r a e),
              );
            }

  pub tcp_checks-Evidence : Yields (λ u. Evidence) (tcp_checks outside p work)
  unfolding tcp_checks
  tcp_checks-Evidence =
      Yields-bind (λ u. Unit {0}) _ _ (Yields-any _)
        λ u x. Yields-bind _ _ _ definition-Yields λ definition asked.
          Yields-bind _ _ _ (value-Yields _ _) λ addresses resolved.
            Yields-bind (λ u. Unit {0}) _ _ (Yields-any _)
              λ u x. Yields-bind _ _ _ (value-Yields _ _) λ address connected.
                Yields-bind (λ u. Unit {0}) _ _ (Yields-any _)
                  λ u x. Yields-bind _ _ _ (tls-Yields _) λ u lasting.
                    Yields-bind (λ u. Unit {0}) _ _ (Yields-any _)
                      λ u x. record {
                        at = λ r a e. record {
                          definition = definition;
                          asked = asked;
                          addresses = addresses;
                          resolved = resolved;
                          address = address;
                          connected =
                              dial_validated-Mem outside.dial definition.port none addresses address
                                connected;
                          lasting = lasting;
                          answered = (expect-Yields definition.expect).at r a e;
                        };
                      }
