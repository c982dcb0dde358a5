-- ===== src/Tests/Requests.antt =====
-- The theorems on the limits and checks of internal/application at concrete inputs.
use mathlib.Core.Logic.{◌↔◌}
use xisnove.Prelude.{◌≡◌, refl, true, [], ◌∷◌, none, some}
use xisnove.Prelude.Int.{pos}
use xisnove.Result.{ok}
use xisnove.Domain.Agent.{AgentCapability}
use xisnove.Application.Records.{RunRecord, leased}
use xisnove.Application.Results.{ProbeResultCommand, failed, validate_result}
use xisnove.Application.Results.Accepted.{IsAcceptable, validate_result-IsAcceptable}
use xisnove.Application.Leasing.{poll, LeaseService, fired, context_done}
use xisnove.Application.Leasing.Polling.{has_ended, poll-ends}
use xisnove.Tests.Store.{probe}
use xisnove.Tests.Services.{env, ready}

abbrev held : RunRecord
held = record {
  id = "r";
  monitor_id = "m";
  location_id = "l";
  scheduled_for = pos 100_000_000_000;
  probe = probe;
  timeout = pos 5_000_000_000;
  status = leased;
  lease_agent_id = "a";
  lease_token_hash = 7 ∷ [];
  lease_attempt = 1;
  lease_expires_at = some (pos 145_000_000_000);
  resolved_at = none;
}

abbrev reported : ProbeResultCommand
reported = record {
  id = "x";
  run_id = "r";
  lease_token = "t";
  started_at = pos 101_000_000_000;
  finished_at = pos 102_000_000_000;
  outcome = failed;
  latency = pos 900_000_000;
  observed_status = none;
  body_assertion_passed = none;
  error_code = "timeout";
  diagnostic_sample = "";
  observed_values = [];
  tls_not_after = none;
  protocol_timings = record { dns = pos 0; connect = pos 0; tls = pos 0; first_byte = pos 0 };
}

validate_result-IsAcceptable_example :
    (validate_result reported held "a" (pos 103_000_000_000) ≡ ok tt)
    ↔ IsAcceptable reported held "a" (pos 103_000_000_000)
validate_result-IsAcceptable_example =
    validate_result-IsAcceptable reported held "a" (pos 103_000_000_000)

abbrev service : LeaseService
service = record { lease_duration = pos 45_000_000_000; poll_interval = pos 250_000_000 }

poll-ends_example :
    has_ended
      (poll env service
        (λ w. w)
        "a"
        (AgentCapability.http ∷ [])
        (pos 30_000_000_000)
        (pos 90_000_000_000)
        (fired ∷ context_done ∷ [])
        (record { db = ready; asked = 0 })).0
    ≡ true
poll-ends_example =
    poll-ends env service (λ w. w) "a" (AgentCapability.http ∷ []) (pos 30_000_000_000)
      (pos 90_000_000_000) (fired ∷ context_done ∷ []) (record { db = ready; asked = 0 }) refl
