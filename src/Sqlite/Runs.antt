-- ===== src/Sqlite/Runs.antt =====
-- The runRepository of internal/adapters/sqlitecompat/store.go with db/generated/sqlite/runs.sql.go.
pub mod Open
pub mod Leases
pub mod Traces
pub mod Claims
use text.Mathlib.Text.{◌==◌ as str_eq}
use xisnove.Prelude.{
  ℕ, zero, suc, ◌+◌, String, Bool, true, false, not, ◌&&◌, ◌||◌, List, [], ◌∷◌, ◌++◌, Option, none,
  some, any, bytes_eq, ◌==◌, if◌then◌else◌,
}
use xisnove.Prelude.Int.{ℤ, ltb_ℤ, leb_ℤ, eqb_ℤ}
use xisnove.Result.{Error, Result, ok, err, conflict, not_found}
use xisnove.Action.{Query}
use xisnove.Domain.Health.{Time}
use xisnove.Domain.Agent.{AgentCapability, Location}
use xisnove.Domain.Agent
use xisnove.Domain.Monitor.{MonitorKind, http, tcp, dns, other}
use xisnove.Application.Records.{
  AgentRecord, NewRunRecord, ClaimRunParams, RunStatus, available, leased, resolved, RunRecord,
}
use xisnove.Sqlite.Tables.{
  Engine, MonitorRow, RunRow, Db, milliseconds, nullable_time_value, nullable_string, sql_eq,
  is_null, find, first, select, count_where, update_where, order_by, text_lt, then_by,
}
use xisnove.Sqlite.Mapping.{map_run}

unfoldable pub database_now : Query Db Time
database_now db = (ok db.now, db)

abbrev pub same_slot : String → String → Time → RunRow → Bool
same_slot monitor_id location_id at r =
    str_eq r.monitor_id monitor_id && str_eq r.location_id location_id && eqb_ℤ r.scheduled_for at

abbrev pub is_probe_kind : MonitorKind → Bool
is_probe_kind (other s) = false
is_probe_kind _ = true

abbrev pub has_monitor : String → Db → Bool
has_monitor id db = any (λ (m : MonitorRow). str_eq m.id id) db.monitors

abbrev pub has_location : String → Db → Bool
has_location id db = any (λ (l : Location). str_eq l.id id) db.locations

unfoldable pub new_run_row : NewRunRecord → RunRow
new_run_row run = record {
  id = run.id;
  monitor_id = run.monitor_id;
  location_id = run.location_id;
  scheduled_for = run.scheduled_for;
  probe = run.probe;
  probe_kind = run.probe.kind;
  timeout_ms = milliseconds run.timeout;
  status = available;
  lease_agent_id = none;
  lease_token_hash = none;
  lease_attempt = 0;
  lease_expires_at = none;
  resolved_at = none;
}

-- InsertScheduledRun: the slot of an earlier run is left alone; any other constraint is a conflict.
unfoldable pub insert_run : NewRunRecord → Query Db Bool
insert_run run db =
    if not (is_probe_kind run.probe.kind)
    then (err conflict, db)
    else if any (same_slot run.monitor_id run.location_id run.scheduled_for) db.check_runs
    then (ok false, db)
    else if any (λ r. str_eq r.id run.id) db.check_runs
        || not (has_monitor run.monitor_id db)
        || not (has_location run.location_id db)
    then (err conflict, db)
    else (ok true, record db { check_runs = db.check_runs ++ new_run_row run ∷ [] })

-- r.probe_kind IN (capabilities)
abbrev pub kind_matches : MonitorKind → AgentCapability → Bool
kind_matches http Agent.http = true
kind_matches tcp Agent.tcp = true
kind_matches dns Agent.dns = true
kind_matches (other a) (Agent.other b) = str_eq a b
kind_matches _ _ = false

unfoldable pub lease_row : ClaimRunParams → RunRow → RunRow
lease_row params r = record r {
  status = leased;
  lease_agent_id = nullable_string params.agent_id;
  lease_token_hash = some params.lease_token_hash;
  lease_attempt = r.lease_attempt + 1;
  lease_expires_at = nullable_time_value params.lease_expires_at;
}

module _ (engine : Engine) where
  abbrev pub lease_expired : Time → Option Time → Bool
  lease_expired now none = false
  lease_expired now (some t) = leb_ℤ (engine.julianday t) (engine.julianday now)

  -- r.status = 'available' OR the lease of a leased run has expired
  abbrev pub is_claimable : Time → RunRow → Bool
  is_claimable now r = elim r.status [
    | available ↦ true
    | leased ↦ lease_expired now r.lease_expires_at
    | resolved ↦ false
  ]

  -- The WHERE clause of the inner SELECT, for the agent of the join.
  abbrev pub is_candidate : ClaimRunParams → AgentRecord → RunRow → Bool
  is_candidate params a r =
      str_eq r.location_id a.agent.location_id
      && is_claimable params.now r
      && leb_ℤ (engine.julianday r.scheduled_for) (engine.julianday params.now)
      && any (kind_matches r.probe_kind) params.capabilities

  -- ORDER BY julianday(r.scheduled_for), r.id
  abbrev pub claimed_before : RunRow → RunRow → Bool
  claimed_before r s =
      then_by (ltb_ℤ (engine.julianday r.scheduled_for) (engine.julianday s.scheduled_for))
        (eqb_ℤ (engine.julianday r.scheduled_for) (engine.julianday s.scheduled_for))
        (text_lt r.id s.id)

  abbrev pub active_agent : String → Db → Option AgentRecord
  active_agent id db =
      find (λ (a : AgentRecord). str_eq a.agent.id id && is_null a.agent.revoked_at) db.agents

  unfoldable pub next_run : ClaimRunParams → Db → Option RunRow
  next_run params db = elim (active_agent params.agent_id db) [
    | none ↦ none
    | some a ↦ first (order_by claimed_before (select (is_candidate params a) db.check_runs))
  ]

  -- ClaimProbeRun; no row to return is ErrNotFound.
  unfoldable pub claim_probe : ClaimRunParams → Query Db RunRecord
  claim_probe params db = elim (next_run params db) [
    | none ↦ (err not_found, db)
    | some r ↦ (
      map_run (lease_row params r),
      record db {
        check_runs = update_where (λ s. str_eq s.id r.id) (lease_row params) db.check_runs;
      },
    )
  ]

found_run : Option RunRow → Result RunRecord
found_run none = err not_found
found_run (some r) = map_run r

unfoldable pub get_run : String → Query Db RunRecord
unfolding found_run
get_run id db = (found_run (find (λ r. str_eq r.id id) db.check_runs), db)

abbrev hash_eq : Option (List ℕ) → List ℕ → Bool
hash_eq none bytes = false
hash_eq (some h) bytes = bytes_eq h bytes

-- The WHERE clause of ResolveCheckRun.
abbrev pub is_held : String → String → List ℕ → RunRow → Bool
is_held id agent_id hash r =
    str_eq r.id id
    && (elim r.status [ leased ↦ true | _ ↦ false ])
    && sql_eq r.lease_agent_id (nullable_string agent_id)
    && hash_eq r.lease_token_hash hash

unfoldable pub resolve_row : Time → RunRow → RunRow
resolve_row at r = record r { status = resolved; resolved_at = nullable_time_value at }

unfoldable pub resolve_run : String → String → List ℕ → Time → Query Db Bool
resolve_run id agent_id hash at db = (
  ok (count_where (is_held id agent_id hash) db.check_runs == 1),
  record db { check_runs = update_where (is_held id agent_id hash) (resolve_row at) db.check_runs },
)
