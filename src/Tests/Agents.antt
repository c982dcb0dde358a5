-- ===== src/Tests/Agents.antt =====
-- The theorems on what the agent uploads at concrete inputs.
use xisnove.Prelude.{◌≡◌, refl, true, false, [], ◌∷◌, none, some}
use xisnove.Prelude.Int.{pos}
use xisnove.Application.Results.{ingest_once}
use xisnove.Application.Projection.{project_aggregate_and_incident}
use xisnove.Sqlite.Tables.{find, count_where}
use xisnove.Application.Projection.{
  project_aggregate, decide, record_decision, store_decision, append_event,
}
use xisnove.Application.Results.{
  result_exists, ingest, validate_result, invalid_fields, settle, result_record, observe,
  observed_health,
}
use xisnove.Domain.Health.{rollup_required, apply_probe}
use xisnove.Domain.Incident.{decide_incident, severity_for}
use xisnove.Domain.Monitor.{
  new_monitor, valid_monitor_fields, valid_http_assertions, valid_tls_expectation,
}
use xisnove.Domain.Monitor.Build.{new_http_monitor, http_refused}
use xisnove.Prelude.Text.{trim_space}
use xisnove.Prelude.Int.{◌+ℤ◌, ◌-ℤ◌, ◌*ℤ◌, i64, quot, saturate}
use xisnove.Sqlite.Tables.{
  order_by, insert_by, select, update_where, from_milliseconds, milliseconds,
}
use xisnove.Sqlite.Mapping.{
  map_all, map_location_health, map_run, map_monitor, decode_probe, monitor_from_probe,
}
use xisnove.Sqlite.Health.{
  list_required_locations, joined_health, get_monitor_health, upsert_monitor_health,
  get_location_health, upsert_location_health,
}
use xisnove.Sqlite.Incidents.{get_active, open_incident_row, append_incident_event}
use xisnove.Sqlite.Results.{get_result_by_id, get_result_by_run, insert_result, stored_result}
use xisnove.Sqlite.Runs.{get_run, resolve_run, resolve_row}
use xisnove.Sqlite.Monitors.{get_monitor}
use xisnove.Application.Configuration.{probe_variant_matches}
use xisnove.Prelude.{List}
use xisnove.Application.Results.{upload_batch, upload_each}
use xisnove.Application.Store.{within_tx}
use xisnove.Services.{on_sqlite}
use xisnove.Tests.Store.{probe}
use xisnove.Prelude.{String, Option}
use xisnove.Application.Environment.{Principal, principal_agent}
use xisnove.Agent.Controlplane as controlplane
use xisnove.Agent.Controlplane.{ProbeResultInput, ProbeResultAcknowledgement}
use xisnove.Agent.Worker.{unacknowledged_results}
use xisnove.HttpApi.Results.{
  body, upload_probe_results, uploaded, answered, to_command, to_commands, timings_of,
  to_acknowledgements,
}
use xisnove.HttpApi.Cleared.{upload_probe_results-clears}
use xisnove.Application.Records.{RunRecord, leased}
use xisnove.Agent.Probe.Dispatcher.{dispatch}
use xisnove.Agent.Probe.Dispatcher.Fits.{agent_dispatcher}
use xisnove.Tests.Services.{backend, env, start}
use xisnove.Tests.Probes.{over_tcp, over_dns, policy}
use xisnove.Tests.Pages.{over_http, http_work}

abbrev input : ProbeResultInput
input = record {
  result_id = "x";
  run_id = "r";
  lease_token = "t";
  started_at = pos 30;
  finished_at = pos 40;
  outcome = controlplane.failed;
  error_code = controlplane.timeout;
  latency_millis = pos 0;
  observed_status = pos 0;
  body_assertion_passed = false;
  diagnostic_sample = "";
  observed_values = none;
  protocol_timings = none;
  tls_not_after = none;
}

abbrev agent : Principal
agent = record { kind = principal_agent; subject_id = "a" }

abbrev parse_uuid : String → Option String
parse_uuid s = some s

abbrev acks : List ProbeResultAcknowledgement
acks = record { result_id = "x"; status = controlplane.accepted } ∷ []

answers :
    (upload_probe_results parse_uuid
      (on_sqlite backend env)
      (pos 45)
      (some agent)
      (some (input ∷ []))
      start).0
    ≡ body acks
unfolding project_aggregate_and_incident list_required_locations map_all order_by insert_by select
    map_location_health joined_health find get_monitor_health project_aggregate rollup_required
    upsert_monitor_health get_active decide decide_incident record_decision store_decision
    append_event severity_for update_where open_incident_row append_incident_event ingest_once
    result_exists get_result_by_id get_result_by_run ingest get_run map_run from_milliseconds
    milliseconds validate_result invalid_fields settle insert_result stored_result result_record
    resolve_run count_where resolve_row observe get_monitor map_monitor decode_probe
    monitor_from_probe new_http_monitor http_refused new_monitor valid_monitor_fields
    valid_http_assertions valid_tls_expectation trim_space get_location_health
    upsert_location_health observed_health apply_probe ◌+ℤ◌ ◌-ℤ◌ ◌*ℤ◌ i64 quot saturate
    probe_variant_matches upload_batch upload_each within_tx upload_probe_results uploaded answered
    to_commands to_command timings_of to_acknowledgements
answers = refl

upload_probe_results-clears_example : unacknowledged_results (input ∷ []) acks ≡ []
upload_probe_results-clears_example =
    upload_probe_results-clears parse_uuid (on_sqlite backend env) (pos 45) agent (input ∷ []) acks
      start (refl, tt) answers

abbrev held : RunRecord
held = record {
  id = "r";
  monitor_id = "m";
  location_id = "l";
  scheduled_for = pos 100_000_000_000;
  probe = probe;
  timeout = pos 5_000_000_000;
  status = leased;
  lease_agent_id = "a";
  lease_token_hash = 7 ∷ [];
  lease_attempt = 1;
  lease_expires_at = some (pos 145_000_000_000);
  resolved_at = none;
}

abbrev sent_result : ProbeResultInput
unfolding dispatch agent_dispatcher
sent_result =
    dispatch (agent_dispatcher true true false over_http over_tcp over_dns policy) "id"
      (pos 102_000_000_000) http_work
