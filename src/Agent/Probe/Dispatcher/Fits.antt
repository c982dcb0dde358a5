-- ===== src/Agent/Probe/Dispatcher/Fits.antt =====
-- The results of the dispatcher of agent/probe over the three executors.
use text.Mathlib.Text.{◌==◌ as str_eq}
use xisnove.Prelude.{
  ℕ, refl, ◌≤◌, String, len, Bool, true, false, Option, none, some, arith, Bool-cases, inl, inr,
}
use xisnove.Domain.Health.{Time}
use xisnove.Agent.Controlplane.{ProbeWork}
use xisnove.Agent.Probe.Policy.{Policy}
use xisnove.Agent.Probe.Steps.Fits.{Fits}
use xisnove.Agent.Probe.Tcp.{TcpOutside, execute_tcp}
use xisnove.Agent.Probe.Tcp.Fits.{execute_tcp-Fits}
use xisnove.Agent.Probe.Dns.{DnsOutside}
use xisnove.Agent.Probe.Dns.Execute.{execute_dns}
use xisnove.Agent.Probe.Dns.Fits.{execute_dns-Fits}
use xisnove.Agent.Probe.Http.{HttpOutside, execute_http}
use xisnove.Agent.Probe.Http.Evidence.{execute_http-Fits}
use xisnove.Agent.Probe.Dispatcher.{Executor, Dispatcher, chosen, executed, unsupported, dispatch}

abbrev pub if_enabled : Bool → Executor → Option Executor
if_enabled true e = some e
if_enabled false e = none

-- The dispatcher of agent/cmd, with the executors that are enabled.
unfoldable pub agent_dispatcher :
    Bool → Bool → Bool → HttpOutside → TcpOutside → DnsOutside → Policy → Dispatcher
agent_dispatcher http tcp dns over_http over_tcp over_dns policy = record {
  http = if_enabled http (execute_http over_http policy);
  tcp = if_enabled tcp (execute_tcp over_tcp policy);
  dns = if_enabled dns (execute_dns over_dns policy);
}

unsupported-Fits :
    (id : String) (now : Time) (work : ProbeWork) → Fits work (unsupported id now work)
unfolding unsupported
unsupported-Fits id now work = record {
  sample = omega arith;
  observed = tt;
  timings = record { dns = tt; connect = tt; tls = tt; first_byte = tt };
  latency = (omega arith, omega arith);
  run_id = refl;
  lease_token = refl;
}

module _ (id : String) (now : Time) (work : ProbeWork) where
  abbrev AllFit : Option Executor → Type 0
  AllFit none = Unit
  AllFit (some execute) = Fits work (execute work)

  chosen-Fits :
      (d : Dispatcher) (kind : Option String)
      → AllFit d.http
      → AllFit d.tcp
      → AllFit d.dns
      → AllFit (chosen d kind)
  chosen-Fits d none h t n = tt
  chosen-Fits d (some kind) h t n = elim (Bool-cases (str_eq kind "http")) [
    | inl is_http ↦ rw is_http h
    | inr other ↦ rw other (elim (Bool-cases (str_eq kind "tcp")) [
      | inl is_tcp ↦ rw is_tcp t
      | inr other2 ↦ rw other2 (elim (Bool-cases (str_eq kind "dns")) [
        | inl is_dns ↦ rw is_dns n
        | inr other3 ↦ rw other3 tt
      ])
    ])
  ]

  executed-Fits :
      (o : Option Executor) → AllFit o → Fits work (executed o work (unsupported id now work))
  executed-Fits none h = unsupported-Fits id now work
  executed-Fits (some execute) h = h

  enabled-Fits :
      (b : Bool) (execute : Executor) → Fits work (execute work) → AllFit (if_enabled b execute)
  enabled-Fits true execute h = h
  enabled-Fits false execute h = tt

  pub dispatch-Fits :
      (http tcp dns : Bool) (over_http : HttpOutside) (over_tcp : TcpOutside)
      (over_dns : DnsOutside) (p : Policy)
      → ((code : ℕ) → len (over_dns.rcode_text code) ≤ 512)
      → Fits work
          (dispatch (agent_dispatcher http tcp dns over_http over_tcp over_dns p) id now work)
  unfolding dispatch agent_dispatcher
  dispatch-Fits http tcp dns over_http over_tcp over_dns p short = executed-Fits _ (
      chosen-Fits (agent_dispatcher http tcp dns over_http over_tcp over_dns p)
        work.probe.discriminator (enabled-Fits http _ (execute_http-Fits over_http p work))
        (enabled-Fits tcp _ (execute_tcp-Fits over_tcp p work))
        (enabled-Fits dns _ (execute_dns-Fits over_dns p work short)))
