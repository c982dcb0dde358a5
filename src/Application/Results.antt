-- ===== src/Application/Results.antt =====
-- internal/application/results.go: the results that agents upload.
pub mod Views
pub mod Accepted
pub mod Known
pub mod Acknowledged
use text.Mathlib.Text.{◌==◌ as str_eq}
use xisnove.Prelude.{
  ℕ, ◌+◌, String, len, Bool, true, false, not, ◌||◌, List, [], ◌∷◌, ◌++◌, Option, none, some, ltb,
  length, bytes_eq, if◌then◌else◌, ◌==◌,
}
use xisnove.Prelude.Int.{ℤ, pos, ◌+ℤ◌, ◌-ℤ◌, ◌*ℤ◌, ltb_ℤ, leb_ℤ, i64}
use xisnove.Prelude.Text.{is_empty}
use xisnove.Result.{Result, ok, err, validation, conflict, is_not_found}
use xisnove.Action.{Action, pure, raise, lift, run_query, ask, attempt, ensure, ◌>>=◌, ◌>>◌}
use xisnove.Domain.Health.{Time, LocationHealth, MonitorHealth, apply_probe}
use xisnove.Domain.Incident.{Incident}
use xisnove.Domain.Monitor.{Duration, Monitor}
use xisnove.Application.Records.{RunStatus, leased, RunRecord, ProtocolTimings, ProbeResultRecord}
use xisnove.Application.Store.{within_tx}
use xisnove.Application.Environment.{Environment}
use xisnove.Application.Projection.{project_aggregate_and_incident}

-- A string type, as `HealthState` is.
pub data ProbeOutcome : Type 0 where
  passed failed : ProbeOutcome
  other : String → ProbeOutcome

pub data ResultStatus : Type 0 where
  accepted duplicate : ResultStatus

pub record ProbeResultCommand : Type 0 where
  pub id : String
  pub run_id : String
  pub lease_token : String
  pub started_at : Time
  pub finished_at : Time
  pub outcome : ProbeOutcome
  pub latency : Duration
  pub observed_status : Option ℤ
  pub body_assertion_passed : Option Bool
  pub error_code : String
  pub diagnostic_sample : String
  pub observed_values : List String
  pub tls_not_after : Option Time
  pub protocol_timings : ProtocolTimings

pub record ResultAcknowledgement : Type 0 where
  pub result_id : String
  pub status : ResultStatus

abbrev pub second : ℤ
second = pos 1_000_000_000

abbrev pub seconds : ℕ → Duration
seconds n = pos n *ℤ second

abbrev pub is_leased : RunStatus → Bool
is_leased leased = true
is_leased _ = false

abbrev pub is_passed : ProbeOutcome → Bool
is_passed passed = true
is_passed _ = false

abbrev is_outcome : ProbeOutcome → Bool
is_outcome (other s) = false
is_outcome _ = true

-- run.LeaseExpiresAt == nil || run.LeaseExpiresAt.Add(30*time.Second).Before(receivedAt)
abbrev lease_over : Option Time → Time → Bool
lease_over none received_at = true
lease_over (some t) received_at = ltb_ℤ (t +ℤ seconds 30) received_at

-- run.LeaseExpiresAt != nil && command.FinishedAt.After(run.LeaseExpiresAt.Add(30*time.Second))
abbrev finished_late : Option Time → Time → Bool
finished_late none finished_at = false
finished_late (some t) finished_at = ltb_ℤ (t +ℤ seconds 30) finished_at

abbrev pub observed_bytes : List String → ℕ
observed_bytes [] = 0
observed_bytes (v ∷ rest) = len v + observed_bytes rest

abbrev is_negative : Duration → Bool
is_negative d = ltb_ℤ d (pos 0)

abbrev field_if : Bool → String → String → List (String × String)
field_if b name what = if b then (name, what) ∷ [] else []

abbrev pub inactive_lease : RunRecord → String → Time → Bool
inactive_lease run agent_id received_at =
    not (is_leased run.status)
    || not (str_eq run.lease_agent_id agent_id)
    || lease_over run.lease_expires_at received_at

abbrev pub outside_window : ProbeResultCommand → RunRecord → Bool
outside_window command run =
    ltb_ℤ command.started_at (run.scheduled_for -ℤ seconds 30)
    || finished_late run.lease_expires_at command.finished_at
    || ltb_ℤ command.finished_at command.started_at

-- The entries of the map `fields`, in the order in which they are set.
unfoldable pub invalid_fields :
    ProbeResultCommand → RunRecord → String → Time → List (String × String)
invalid_fields command run agent_id received_at =
    field_if (is_empty command.id) "resultId" "is required"
    ++ field_if (inactive_lease run agent_id received_at) "runId" "lease is no longer active"
    ++ field_if (outside_window command run) "timestamps" "are outside the accepted lease window"
    ++ field_if (is_negative command.latency) "latencyMillis" "must not be negative"
    ++ field_if (ltb 512 (len command.diagnostic_sample)) "diagnosticSample"
        "must not exceed 512 bytes"
    ++ field_if
        (ltb 20 (length command.observed_values)
          || ltb 4096 (observed_bytes command.observed_values))
        "observedValues" "must contain at most 20 values and 4096 bytes"
    ++ field_if
        (is_negative command.protocol_timings.dns
          || is_negative command.protocol_timings.connect
          || is_negative command.protocol_timings.tls
          || is_negative command.protocol_timings.first_byte)
        "protocolTimings" "must not be negative"
    ++ field_if (not (is_outcome command.outcome)) "outcome" "is unsupported"

abbrev is_nil {ℓ} : {A : Type ℓ} → List A → Bool
is_nil [] = true
is_nil (x ∷ xs) = false

unfoldable pub validate_result : ProbeResultCommand → RunRecord → String → Time → Result (Unit {0})
unfolding invalid_fields
validate_result command run agent_id received_at =
    let fields = invalid_fields command run agent_id received_at in
    if is_nil fields then ok tt else err (validation fields)

-- The record that `ingest` inserts.
unfoldable pub result_record : ProbeResultCommand → String → Time → ProbeResultRecord
result_record command agent_id received_at = record {
  id = command.id;
  run_id = command.run_id;
  agent_id = agent_id;
  started_at = command.started_at;
  finished_at = command.finished_at;
  received_at = received_at;
  passed = is_passed command.outcome;
  latency = command.latency;
  observed_status = command.observed_status;
  body_assertion_passed = command.body_assertion_passed;
  error_code = command.error_code;
  diagnostic_sample = command.diagnostic_sample;
  observed_values = command.observed_values;
  tls_not_after = command.tls_not_after;
  protocol_timings = command.protocol_timings;
}

-- The location's health after the result, with the time at which it becomes stale.
unfoldable pub observed_health :
    Duration → Monitor → ProbeResultCommand → LocationHealth → LocationHealth
observed_health lease_duration monitor command health =
    let applied =
      apply_probe health (record { passed = is_passed command.outcome; at = command.finished_at })
        (record {
          failures = monitor.failure_threshold;
          recoveries = monitor.recovery_threshold;
        }) in
    record applied {
      stale_at =
          command.finished_at
          +ℤ i64 (pos 2 *ℤ monitor.interval +ℤ monitor.timeout +ℤ lease_duration);
    }

-- NewResultService: a lease duration that is not positive is 45 seconds.
unfoldable pub default_lease_duration : Duration → Duration
default_lease_duration d = if leb_ℤ d (pos 0) then seconds 45 else d

module _ {D : Type 0} (env : Environment D) where
  open env.store.repositories use {runs, results, monitors, health, incidents}

  found : Result ProbeResultRecord → Action D Bool
  found (ok r) = pure true
  found (err e) = if is_not_found e then pure false else raise e

  unfoldable pub result_exists : ProbeResultCommand → Action D Bool
  unfolding found
  result_exists command = do
    by_id ← attempt (run_query (results.get_by_id command.id))
    known ← found by_id
    if known
        then pure true
        else do by_run ← attempt (run_query (results.get_by_run command.run_id)); found by_run

  -- The part of `ingest` behind `Resolve`: the location's health and the projection.
  unfoldable pub observe : Duration → RunRecord → ProbeResultCommand → Action D (Unit {0})
  observe lease_duration run command = do
    monitor ← run_query (monitors.get run.monitor_id)
    location_health ← run_query (health.get_location run.monitor_id run.location_id)
    run_query
        (health.upsert_location (observed_health lease_duration monitor command location_health))
    project_aggregate_and_incident env run.monitor_id command.finished_at false

  -- The part that inserts the result and resolves the run.
  unfoldable pub settle : RunRecord → String → ProbeResultCommand → Time → Action D (Unit {0})
  settle run agent_id command received_at = do
    inserted ← run_query (results.insert (result_record command agent_id received_at))
    ensure inserted conflict
    resolved_now ←
        run_query (runs.resolve run.id agent_id (env.hash_token command.lease_token) received_at)
    ensure resolved_now (validation (("runId", "lease is no longer active") ∷ []))

  unfoldable pub ingest : Duration → String → ProbeResultCommand → Action D (Unit {0})
  ingest lease_duration agent_id command = do
    run ← run_query (runs.get command.run_id)
    received_at ← ask env.now
    lift (validate_result command run agent_id received_at)
    ensure (bytes_eq (env.hash_token command.lease_token) run.lease_token_hash)
        (validation (("leaseToken", "is invalid") ∷ []))
    settle run agent_id command received_at
    observe lease_duration run command

  -- The body of the transaction of one command.
  unfoldable pub ingest_once : Duration → String → ProbeResultCommand → Action D ResultStatus
  ingest_once lease_duration agent_id command = do
    known ← result_exists command
    if known then pure duplicate else do ingest lease_duration agent_id command; pure accepted

  -- The loop over the commands: a transaction each, the first error ends it.
  unfoldable pub upload_each :
      Duration → String → List ProbeResultCommand → Action D (List ResultAcknowledgement)
  upload_each lease_duration agent_id [] = pure []
  upload_each lease_duration agent_id (command ∷ rest) = do
    status ← within_tx env.store (ingest_once lease_duration agent_id command)
    acknowledgements ← upload_each lease_duration agent_id rest
    pure (record { result_id = command.id; status = status } ∷ acknowledgements)

  unfoldable pub upload_batch :
      Duration → String → List ProbeResultCommand → Action D (List ResultAcknowledgement)
  unfolding upload_each
  upload_batch lease_duration agent_id commands =
      if length commands == 0 || ltb 100 (length commands)
      then raise (validation (("results", "must contain between 1 and 100 results") ∷ []))
      else upload_each lease_duration agent_id commands
