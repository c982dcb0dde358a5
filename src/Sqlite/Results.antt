-- ===== src/Sqlite/Results.antt =====
-- The resultRepository of internal/adapters/sqlitecompat/store.go with
-- db/generated/sqlite/results.sql.go.
pub mod Lookup
use text.Mathlib.Text.{◌==◌ as str_eq}
use xisnove.Prelude.{
  String, Bool, true, false, not, ◌||◌, [], ◌∷◌, ◌++◌, Option, none, some, any, if◌then◌else◌,
}
use xisnove.Result.{Result, ok, err, conflict, not_found}
use xisnove.Action.{Query}
use xisnove.Domain.Monitor.{Duration}
use xisnove.Application.Records.{AgentRecord, ProbeResultRecord}
use xisnove.Sqlite.Tables.{RunRow, Db, milliseconds, from_milliseconds, nullable_time, find}

found : Option ProbeResultRecord → Result ProbeResultRecord
found none = err not_found
found (some r) = ok r

unfoldable pub get_result_by_id : String → Query Db ProbeResultRecord
unfolding found
get_result_by_id id db =
    (found (find (λ (r : ProbeResultRecord). str_eq r.id id) db.probe_results), db)

unfoldable pub get_result_by_run : String → Query Db ProbeResultRecord
unfolding found
get_result_by_run run_id db =
    (found (find (λ (r : ProbeResultRecord). str_eq r.run_id run_id) db.probe_results), db)

-- A duration that went through a column of milliseconds.
abbrev rounded : Duration → Duration
rounded d = from_milliseconds (milliseconds d)

-- The record as it is read again.
unfoldable pub stored_result : ProbeResultRecord → ProbeResultRecord
stored_result r = record r {
  latency = rounded r.latency;
  tls_not_after = nullable_time r.tls_not_after;
  protocol_timings = record {
    dns = rounded r.protocol_timings.dns;
    connect = rounded r.protocol_timings.connect;
    tls = rounded r.protocol_timings.tls;
    first_byte = rounded r.protocol_timings.first_byte;
  };
}

-- ON CONFLICT DO NOTHING, on the identifier and on the run; a missing run or agent is a conflict.
unfoldable pub insert_result : ProbeResultRecord → Query Db Bool
insert_result r db =
    if any (λ (k : ProbeResultRecord). str_eq k.id r.id || str_eq k.run_id r.run_id)
      db.probe_results
    then (ok false, db)
    else if not (any (λ (k : RunRow). str_eq k.id r.run_id) db.check_runs)
        || not (any (λ (a : AgentRecord). str_eq a.agent.id r.agent_id) db.agents)
    then (err conflict, db)
    else (ok true, record db { probe_results = db.probe_results ++ stored_result r ∷ [] })
