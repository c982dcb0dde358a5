-- ===== src/Agent/Probe/Tcp/Fits.antt =====
-- The results of agent/probe/tcp.go.
use xisnove.Prelude.{
  ℕ, ◌≡◌, refl, List, [], ◌∷◌, Option, none, some, arith, Bool, true, false, if◌then◌else◌,
}
use xisnove.Prelude.Int.{ℤ}
use xisnove.Domain.Health.{Time}
use xisnove.Agent.Controlplane.{ProbeWork, TcpProbeDefinition, passed, protocol_error}
use xisnove.Agent.Probe.Policy.{Policy}
use xisnove.Agent.Probe.Diagnostic.Bounds.{len-diagnostic}
use xisnove.Agent.Probe.Steps.{pure, stop}
use xisnove.Agent.Probe.Steps.Rules.{Keeps, Keeps-bind, Keeps-pure}
use xisnove.Agent.Probe.Steps.Fits.{
  Fits, Draft, millis-AreMillis, update-Drafts, stop-Drafts, require-Drafts, set_timings-Drafts,
  unless_error-Drafts, value_or_stop-Drafts, run-Fits,
}
use xisnove.Agent.Probe.Tcp.{
  TcpOutside, Observed, tcp_definition, accepted_definition, is_tcp_definition, certificate_steps,
  tls_steps, send_steps, expect_steps, expect_observed, tcp_checks, tcp_steps, execute_tcp,
}
use xisnove.Agent.Probe.Tcp.Evidence.{Evidence, tcp_checks-Evidence}

module _ {work : ProbeWork} (outside : TcpOutside) where
  definition-Drafts : Keeps (Draft work) (tcp_definition work.probe)
  unfolding tcp_definition
  definition-Drafts =
      Keeps-bind _ _ (require-Drafts _ _ _ (omega arith)) λ u. accepted work.probe.as_tcp
    where
      accepted :
          (given : Option TcpProbeDefinition) → Keeps (Draft work) (accepted_definition given)
      accepted none = stop-Drafts _ _ (omega arith)
      accepted (some d) = tested (is_tcp_definition d) d
        where
          tested :
              (test : Bool) (d : TcpProbeDefinition)
              → Keeps
                  (Draft work)
                  (if test then pure d else stop protocol_error "invalid TCP probe")
          tested true d = Keeps-pure d
          tested false d = stop-Drafts _ _ (omega arith)

  certificate-Drafts :
      (seconds : ℤ) (certificates : List Time)
      → Keeps (Draft work) (certificate_steps outside seconds certificates)
  certificate-Drafts seconds [] = stop-Drafts _ _ (omega arith)
  certificate-Drafts seconds (not_after ∷ others) =
      Keeps-bind _ _
        (update-Drafts _
          (λ r p. record {
            sample = p.sample;
            observed = p.observed;
            timings = p.timings;
            latency = p.latency;
            run_id = p.run_id;
            lease_token = p.lease_token;
          })
          (λ r. refl))
        λ u. require-Drafts _ _ _ (omega arith)

  tls-Drafts : (seconds : Option ℤ) → Keeps (Draft work) (tls_steps outside seconds)
  unfolding tls_steps
  tls-Drafts none = Keeps-pure tt
  tls-Drafts (some seconds) = Keeps-bind _ _ (unless_error-Drafts _ _) λ u.
      Keeps-bind _ _
        (set_timings-Drafts _ λ t h. record {
          dns = h.dns;
          connect = h.connect;
          tls = millis-AreMillis outside.handshake_time;
          first_byte = h.first_byte;
        })
        λ u. certificate-Drafts seconds outside.certificates

  send-Drafts : (bytes : List ℕ) → Keeps (Draft work) (send_steps outside bytes)
  unfolding send_steps
  send-Drafts [] = Keeps-pure tt
  send-Drafts (b ∷ bytes) = unless_error-Drafts _ _

  observed-Drafts :
      (expect : List ℕ) (o : Option Observed)
      → Keeps (Draft work) (expect_observed outside expect o)
  unfolding expect_observed
  observed-Drafts expect none = stop-Drafts _ _ (omega arith)
  observed-Drafts expect (some o) =
      Keeps-bind _ _ (unless_error-Drafts _ _) λ u. require-Drafts _ _ _ (len-diagnostic _)

  expect-Drafts : (expect : List ℕ) → Keeps (Draft work) (expect_steps outside expect)
  unfolding expect_steps
  expect-Drafts [] = Keeps-pure tt
  expect-Drafts (b ∷ bytes) = observed-Drafts (b ∷ bytes) _

  tcp_checks-Drafts : (p : Policy) → Keeps (Draft work) (tcp_checks outside p work)
  unfolding tcp_checks
  tcp_checks-Drafts p = Keeps-bind _ _ (require-Drafts _ _ _ (omega arith)) λ u.
      Keeps-bind _ _ definition-Drafts λ definition.
        Keeps-bind _ _ (value_or_stop-Drafts _ _) λ addresses.
          Keeps-bind _ _
            (set_timings-Drafts _ λ t h. record {
              dns = h.dns;
              connect = millis-AreMillis outside.connect_time;
              tls = h.tls;
              first_byte = h.first_byte;
            })
            λ u. Keeps-bind _ _ (value_or_stop-Drafts _ _) λ connected.
              Keeps-bind _ _ (unless_error-Drafts _ _) λ u.
                Keeps-bind _ _ (tls-Drafts _)
                  λ u. Keeps-bind _ _ (send-Drafts _) λ u. expect-Drafts _

module _ (outside : TcpOutside) (p : Policy) (work : ProbeWork) where
  pub execute_tcp-Fits : Fits work (execute_tcp outside p work)
  unfolding execute_tcp tcp_steps
  execute_tcp-Fits =
      (run-Fits outside.id outside.started outside.finished work (tcp_checks outside p work)
        (λ u. Evidence outside p work) (tcp_checks-Drafts outside p)
        (tcp_checks-Evidence outside p work)).0

  -- A TCP probe that passes has evidence: its host resolves to addresses, one of them answered, the
  -- certificate, if its life is asked about, lasts at least as many seconds as asked for, and the
  -- bytes that were read contain the expected ones, if there are any.
  pub execute_tcp-Evidence : (execute_tcp outside p work).outcome ≡ passed → Evidence outside p work
  unfolding execute_tcp tcp_steps
  execute_tcp-Evidence =
      (run-Fits outside.id outside.started outside.finished work (tcp_checks outside p work)
        (λ u. Evidence outside p work) (tcp_checks-Drafts outside p)
        (tcp_checks-Evidence outside p work)).1
