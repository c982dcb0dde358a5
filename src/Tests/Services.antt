-- ===== src/Tests/Services.antt =====
-- The theorems on the services over the store at concrete inputs.
use xisnove.Prelude.{◌≤◌, ◌≡◌, refl, true, false, [], ◌∷◌, none, some, arith, ◌==◌, if◌then◌else◌}
use xisnove.Prelude.Int.{pos}
use xisnove.Result.{ok}
use xisnove.Action.{World}
use xisnove.Domain.Health.{pending, down}
use xisnove.Domain.Monitor.{http, no_http}
use xisnove.Application.Store.Atomic.{IsAtomic}
use xisnove.Application.Environment.{Environment}
use xisnove.Application.Configuration.{CreateMonitorCommand, create_monitor}
use xisnove.Application.Agents.{EnrollAgentCommand, enroll}
use xisnove.Application.Auth.{Mail, Passwords}
use xisnove.Application.Results.{ProbeResultCommand, ProbeOutcome, duplicate, accepted, ingest_once}
use xisnove.Application.Projection.{project_aggregate_and_incident}
use xisnove.Domain.Agent.{AgentCapability}
use xisnove.Domain.Incident.Lifecycle.{IsActive, alarm}
use xisnove.Sqlite.Tables.{Db, MonitorRow, find, count_where}
use xisnove.Sqlite.Assembly.{new_store}
use xisnove.Sqlite.Incidents.{is_active_of}
use xisnove.Sqlite.Incidents.Active.{active_of}
use xisnove.Application.Projection.{
  project_aggregate, decide, record_decision, store_decision, append_event,
}
use xisnove.Application.Results.{
  result_exists, ingest, validate_result, invalid_fields, settle, result_record, observe,
  observed_health,
}
use xisnove.Domain.Health.{rollup_required, apply_probe}
use xisnove.Domain.Incident.{decide_incident, severity_for}
use xisnove.Domain.Monitor.{
  new_monitor, valid_monitor_fields, valid_http_assertions, valid_tls_expectation,
}
use xisnove.Domain.Monitor.Build.{new_http_monitor, http_refused}
use xisnove.Prelude.Text.{trim_space}
use xisnove.Prelude.Int.{◌+ℤ◌, ◌-ℤ◌, ◌*ℤ◌, i64, quot, saturate}
use xisnove.Sqlite.Tables.{
  order_by, insert_by, select, update_where, from_milliseconds, milliseconds,
}
use xisnove.Sqlite.Mapping.{
  map_all, map_location_health, map_run, map_monitor, decode_probe, monitor_from_probe,
}
use xisnove.Sqlite.Health.{
  list_required_locations, joined_health, get_monitor_health, upsert_monitor_health,
  get_location_health, upsert_location_health,
}
use xisnove.Sqlite.Incidents.{get_active, open_incident_row, append_incident_event}
use xisnove.Sqlite.Results.{get_result_by_id, get_result_by_run, insert_result, stored_result}
use xisnove.Sqlite.Runs.{get_run, resolve_run, resolve_row}
use xisnove.Sqlite.Monitors.{get_monitor}
use xisnove.Application.Configuration.{probe_variant_matches}
use xisnove.Prelude.{length, List, ◌≤◌}
use xisnove.Application.Results.{ResultAcknowledgement, upload_batch, upload_each}
use xisnove.Application.Results.Acknowledged.{acknowledged, sent, upload_batch-acknowledged}
use xisnove.Application.Store.{within_tx}
use xisnove.Services.{Backend, on_sqlite}
use xisnove.Services.Atomic.{create_monitor-IsAtomic, enroll-IsAtomic}
use xisnove.Services.Uploads.{ingest_once-again}
use xisnove.Services.Projection.{IsProjected, project_aggregate_and_incident-IsProjected}
use xisnove.Tests.Domain.{fresh}
use xisnove.Tests.Monitors.{library}
use xisnove.Tests.Store.{engine, probe, db}

abbrev pub backend : Backend
backend = record {
  engine = engine;
  library = library;
  begin_error = λ d. none;
  commit_error = λ d. none;
}

abbrev pub env : Environment Db
env = record {
  store = new_store engine library (λ d. none) (λ d. none);
  now = λ n. pos 60;
  new_id = λ n. if n == 0 then "i" else if n == 1 then "j" else "k";
  new_token = λ n. ok (record { raw = "t"; hash = 7 ∷ [] });
  hash_token = λ s. 7 ∷ [];
}

abbrev command : CreateMonitorCommand
command = record {
  name = "site";
  location_id = "l";
  required_location = true;
  interval = pos 60_000_000_000;
  timeout = pos 5_000_000_000;
  failure_threshold = 1;
  recovery_threshold = 1;
  probe = probe;
}

create_monitor-IsAtomic_example :
    IsAtomic (create_monitor (on_sqlite backend env) backend.library command)
create_monitor-IsAtomic_example = create_monitor-IsAtomic backend env command

abbrev pub enrolment : EnrollAgentCommand
enrolment = record { token = "e"; name = "probe"; capabilities = AgentCapability.http ∷ [] }

enroll-IsAtomic_example : IsAtomic (enroll (on_sqlite backend env) enrolment)
enroll-IsAtomic_example = enroll-IsAtomic backend env enrolment

abbrev pub mail : Mail
mail = record { to_lower = λ s. s; parse_address = λ s. some s }

abbrev pub passwords : Passwords
passwords = record { hash = λ s n. ok s; verify = λ h s. true }

abbrev row : MonitorRow
row = record {
  id = "m";
  name = "site";
  kind = http;
  interval_ms = pos 60000;
  timeout_ms = pos 5000;
  failure_threshold = 1;
  recovery_threshold = 1;
  probe = record probe { http = record no_http { url = "https://example.org"; method = "GET" } };
  enabled = true;
  next_run_at = pos 10;
  created_at = pos 1;
  updated_at = pos 1;
}

-- A monitor with a leased run, and one required location that is down.
abbrev pub ready : Db
ready = record db {
  locations = record { id = "l"; name = "lab"; created_at = pos 1 } ∷ [];
  monitors = row ∷ [];
  monitor_locations = record { monitor_id = "m"; location_id = "l"; required = true } ∷ [];
  location_health = record fresh { state = down; last_transition_at = pos 5 } ∷ [];
  monitor_health = record { monitor_id = "m"; state = pending; last_transition_at = pos 1 } ∷ [];
}

abbrev pub start : World Db
start = record { db = ready; asked = 0 }

projects :
    (project_aggregate_and_incident (on_sqlite backend env) "m" (pos 50) false start).0 ≡ ok tt
unfolding project_aggregate_and_incident list_required_locations map_all order_by insert_by select
    map_location_health joined_health find get_monitor_health project_aggregate rollup_required
    upsert_monitor_health get_active decide decide_incident record_decision store_decision
    append_event severity_for update_where open_incident_row append_incident_event
projects = refl

at_most_one : count_where (is_active_of "m") ready.incidents ≤ 1
unfolding count_where
at_most_one = omega arith

none-IsActive : IsActive "m" (active_of "m" ready)
unfolding find
none-IsActive = tt

project_aggregate_and_incident-IsProjected_example :
    IsProjected backend env "m" false
      (alarm (active_of "m" ready))
      (project_aggregate_and_incident (on_sqlite backend env) "m" (pos 50) false start).1.db
project_aggregate_and_incident-IsProjected_example =
    project_aggregate_and_incident-IsProjected backend env "m" start (pos 50) false refl at_most_one
      none-IsActive projects

abbrev report : ProbeResultCommand
report = record {
  id = "x";
  run_id = "r";
  lease_token = "t";
  started_at = pos 30;
  finished_at = pos 40;
  outcome = ProbeOutcome.failed;
  latency = pos 10;
  observed_status = none;
  body_assertion_passed = none;
  error_code = "timeout";
  diagnostic_sample = "";
  observed_values = [];
  tls_not_after = none;
  protocol_timings = record { dns = pos 0; connect = pos 0; tls = pos 0; first_byte = pos 0 };
}

ingests : (ingest_once (on_sqlite backend env) (pos 45) "a" report start).0 ≡ ok accepted
unfolding project_aggregate_and_incident list_required_locations map_all order_by insert_by select
    map_location_health joined_health find get_monitor_health project_aggregate rollup_required
    upsert_monitor_health get_active decide decide_incident record_decision store_decision
    append_event severity_for update_where open_incident_row append_incident_event ingest_once
    result_exists get_result_by_id get_result_by_run ingest get_run map_run from_milliseconds
    milliseconds validate_result invalid_fields settle insert_result stored_result result_record
    resolve_run count_where resolve_row observe get_monitor map_monitor decode_probe
    monitor_from_probe new_http_monitor http_refused new_monitor valid_monitor_fields
    valid_http_assertions valid_tls_expectation trim_space get_location_health
    upsert_location_health observed_health apply_probe ◌+ℤ◌ ◌-ℤ◌ ◌*ℤ◌ i64 quot saturate
    probe_variant_matches
ingests = refl

ingest_once-again_example :
    let after = (ingest_once (on_sqlite backend env) (pos 45) "a" report start).1 in
    ingest_once (on_sqlite backend env) (pos 45) "b" report after ≡ (ok duplicate, after)
ingest_once-again_example =
    ingest_once-again backend env (pos 45) "a" "b" report start accepted ingests

abbrev acks : List ResultAcknowledgement
acks = record { result_id = "x"; status = accepted } ∷ []

uploads : (upload_batch (on_sqlite backend env) (pos 45) "a" (report ∷ []) start).0 ≡ ok acks
unfolding project_aggregate_and_incident list_required_locations map_all order_by insert_by select
    map_location_health joined_health find get_monitor_health project_aggregate rollup_required
    upsert_monitor_health get_active decide decide_incident record_decision store_decision
    append_event severity_for update_where open_incident_row append_incident_event ingest_once
    result_exists get_result_by_id get_result_by_run ingest get_run map_run from_milliseconds
    milliseconds validate_result invalid_fields settle insert_result stored_result result_record
    resolve_run count_where resolve_row observe get_monitor map_monitor decode_probe
    monitor_from_probe new_http_monitor http_refused new_monitor valid_monitor_fields
    valid_http_assertions valid_tls_expectation trim_space get_location_health
    upsert_location_health observed_health apply_probe ◌+ℤ◌ ◌-ℤ◌ ◌*ℤ◌ i64 quot saturate
    probe_variant_matches upload_batch upload_each within_tx
uploads = refl

upload_batch-acknowledged_example :
    (1 ≤ length (report ∷ []))
    × (length (report ∷ []) ≤ 100)
    × (acknowledged acks ≡ sent (report ∷ []))
upload_batch-acknowledged_example =
    upload_batch-acknowledged (on_sqlite backend env) (pos 45) "a" (report ∷ []) acks start uploads
