-- ===== src/HttpApi/Results.antt =====
-- internal/adapters/httpapi/results.go. uuid.Parse is a parameter.
use xisnove.Prelude.{ℕ, String, List, [], ◌∷◌, Option, none, some}
use xisnove.Prelude.Int.{ℤ, pos, ◌*ℤ◌, i64}
use xisnove.Result.{Error, Result, ok, err, validation, invalid_credentials, other}
use xisnove.Action.{World}
use xisnove.Domain.Monitor.{Duration}
use xisnove.Application.Records as records
use xisnove.Application.Results as application
use xisnove.Application.Results.{
  ResultStatus, ResultAcknowledgement, ProbeResultCommand, upload_batch,
}
use xisnove.Application.Environment.{
  Environment, Principal, PrincipalKind, principal_agent, principal_admin,
}
use xisnove.Agent.Controlplane.{
  ProbeResultInput, ProbeResultInputOutcome, ProbeResultInputErrorCode, ProtocolTimings,
  ProbeResultAcknowledgement, ProbeResultAcknowledgementStatus, passed, failed, empty,
  body_mismatch, connect_error, dns_error, dns_mismatch, protocol_error, response_too_large,
  status_mismatch, target_denied, tcp_expect_mismatch, timeout, tls_error, tls_expiring, accepted,
  duplicate,
}
use xisnove.HttpApi.Problems.{Problem, problem_from_error}

-- `time.Duration(n) * time.Millisecond`
abbrev pub from_millis : ℤ → Duration
from_millis n = i64 (n *ℤ pos 1_000_000)

unfoldable pub milliseconds : Option ℤ → Duration
milliseconds none = pos 0
milliseconds (some n) = from_millis n

abbrev pub outcome : ProbeResultInputOutcome → application.ProbeOutcome
outcome passed = application.passed
outcome failed = application.failed

-- The text of an error code.
abbrev pub error_code : ProbeResultInputErrorCode → String
error_code empty = ""
error_code body_mismatch = "body_mismatch"
error_code connect_error = "connect_error"
error_code dns_error = "dns_error"
error_code dns_mismatch = "dns_mismatch"
error_code protocol_error = "protocol_error"
error_code response_too_large = "response_too_large"
error_code status_mismatch = "status_mismatch"
error_code target_denied = "target_denied"
error_code tcp_expect_mismatch = "tcp_expect_mismatch"
error_code timeout = "timeout"
error_code tls_error = "tls_error"
error_code tls_expiring = "tls_expiring"

abbrev pub values_of : Option (List String) → List String
values_of none = []
values_of (some values) = values

unfoldable pub timings_of : Option ProtocolTimings → records.ProtocolTimings
unfolding milliseconds
timings_of none = record { dns = pos 0; connect = pos 0; tls = pos 0; first_byte = pos 0 }
timings_of (some t) = record {
  dns = milliseconds t.dns_millis;
  connect = milliseconds t.connect_millis;
  tls = milliseconds t.tls_millis;
  first_byte = milliseconds t.first_byte_millis;
}

unfoldable pub to_command : ProbeResultInput → ProbeResultCommand
unfolding timings_of
to_command result = record {
  id = result.result_id;
  run_id = result.run_id;
  lease_token = result.lease_token;
  started_at = result.started_at;
  finished_at = result.finished_at;
  outcome = outcome result.outcome;
  latency = from_millis result.latency_millis;
  observed_status = some result.observed_status;
  body_assertion_passed = some result.body_assertion_passed;
  error_code = error_code result.error_code;
  diagnostic_sample = result.diagnostic_sample;
  observed_values = values_of result.observed_values;
  tls_not_after = result.tls_not_after;
  protocol_timings = timings_of result.protocol_timings;
}

unfoldable pub to_commands : List ProbeResultInput → List ProbeResultCommand
unfolding to_command
to_commands [] = []
to_commands (result ∷ rest) = to_command result ∷ to_commands rest

abbrev pub api_status : ResultStatus → ProbeResultAcknowledgementStatus
api_status application.accepted = accepted
api_status application.duplicate = duplicate

abbrev pub parsed :
    Option String
    → ResultStatus
    → Result (List ProbeResultAcknowledgement)
    → Result (List ProbeResultAcknowledgement)
parsed none status rest = err (other "uuid.Parse")
parsed (some id) status (err e) = err e
parsed (some id) status (ok rest) =
    ok (record { result_id = id; status = api_status status } ∷ rest)

-- The response of a handler: a body, a problem with its status, or an error for the server to handle.
pub data Response (A : Type 0) : Type 0 where
  body : A → Response A
  problem : Problem → ℕ → Response A
  failure : Error → Response A

abbrev pub problem_or : {A : Type 0} → Error → Option (Problem × ℕ) → Response A
problem_or e none = failure e
problem_or e (some (p, status)) = problem p status

-- `…Problem(err)`, and `return nil, err` where it is no problem
unfoldable pub from_error : {A : Type 0} → Error → Response A
unfolding problem_from_error
from_error e = problem_or e (problem_from_error e)

abbrev pub body_or : {A : Type 0} → Result A → Response A
body_or (ok a) = body a
body_or (err e) = failure e

module _ (parse_uuid : String → Option String) where
  unfoldable pub to_acknowledgements :
      List ResultAcknowledgement → Result (List ProbeResultAcknowledgement)
  to_acknowledgements [] = ok []
  to_acknowledgements (a ∷ rest) =
      parsed (parse_uuid a.result_id) a.status (to_acknowledgements rest)

  unfoldable pub answered :
      Result (List ResultAcknowledgement) → Response (List ProbeResultAcknowledgement)
  unfolding from_error to_acknowledgements
  answered (err e) = from_error e
  answered (ok acks) = body_or (to_acknowledgements acks)

  module _ {D : Type 0} (env : Environment D) where
    -- The request of an agent, with its body or without one.
    unfoldable pub uploaded :
        Duration
        → String
        → Option (List ProbeResultInput)
        → World D
        → Response (List ProbeResultAcknowledgement) × World D
    unfolding answered to_commands upload_batch from_error
    uploaded lease_duration agent_id none w =
        (from_error (validation (("body", "is required") ∷ [])), w)
    uploaded lease_duration agent_id (some results) w =
        let (r, w') = upload_batch env lease_duration agent_id (to_commands results) w in
        (answered r, w')

    unfoldable pub as_agent :
        PrincipalKind
        → Response (List ProbeResultAcknowledgement) × World D
        → World D
        → Response (List ProbeResultAcknowledgement) × World D
    unfolding from_error
    as_agent principal_agent done w = done
    as_agent principal_admin done w = (from_error invalid_credentials, w)

    -- UploadProbeResults; the principal is the one of the context, if there is one.
    unfoldable pub upload_probe_results :
        Duration
        → Option Principal
        → Option (List ProbeResultInput)
        → World D
        → Response (List ProbeResultAcknowledgement) × World D
    unfolding uploaded from_error as_agent
    upload_probe_results lease_duration none request w = (from_error invalid_credentials, w)
    upload_probe_results lease_duration (some principal) request w =
        as_agent principal.kind (uploaded lease_duration principal.subject_id request w) w
