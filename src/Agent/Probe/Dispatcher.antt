-- ===== src/Agent/Probe/Dispatcher.antt =====
-- agent/probe/dispatcher.go. An executor that is nil is `none`.
pub mod Fits
use text.Mathlib.Text.{◌==◌ as str_eq}
use xisnove.Prelude.{String, Bool, true, false, Option, none, some, if◌then◌else◌}
use xisnove.Domain.Health.{Time}
use xisnove.Prelude.Int.{pos}
use xisnove.Agent.Controlplane.{ProbeWork, ProbeResultInput, failed, protocol_error}

abbrev pub Executor : Type 0
Executor = ProbeWork → ProbeResultInput

pub record Dispatcher : Type 0 where
  pub http : Option Executor
  pub tcp : Option Executor
  pub dns : Option Executor

-- Execute, up to the result of a variant that is unsupported or disabled.
abbrev pub chosen : Dispatcher → Option String → Option Executor
chosen d none = none
chosen d (some kind) =
    if str_eq kind "http"
    then d.http
    else if str_eq kind "tcp"
    then d.tcp
    else if str_eq kind "dns"
    then d.dns
    else none

unfoldable pub unsupported : String → Time → ProbeWork → ProbeResultInput
unsupported id now work = record {
  result_id = id;
  run_id = work.run_id;
  lease_token = work.lease_token;
  started_at = now;
  finished_at = now;
  outcome = failed;
  error_code = protocol_error;
  latency_millis = pos 0;
  observed_status = pos 0;
  body_assertion_passed = false;
  diagnostic_sample = "unsupported or disabled probe variant";
  observed_values = none;
  protocol_timings = none;
  tls_not_after = none;
}

abbrev pub executed : Option Executor → ProbeWork → ProbeResultInput → ProbeResultInput
executed none work default = default
executed (some execute) work default = execute work

-- `id` and `now` are what uuid.New and time.Now give where they are asked.
unfoldable pub dispatch : Dispatcher → String → Time → ProbeWork → ProbeResultInput
unfolding unsupported
dispatch d id now work = executed (chosen d work.probe.discriminator) work (unsupported id now work)
