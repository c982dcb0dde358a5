-- ===== src/Sqlite/Incidents.antt =====
-- The incidentRepository of internal/adapters/sqlitecompat/store.go with
-- db/generated/sqlite/incidents.sql.go.
pub mod Active
use text.Mathlib.Text.{◌==◌ as str_eq}
use xisnove.Prelude.{
  String, Bool, not, ◌&&◌, ◌||◌, [], ◌∷◌, ◌++◌, Option, none, any, ◌==◌, if◌then◌else◌,
}
use xisnove.Result.{ok, err, conflict}
use xisnove.Action.{Query}
use xisnove.Domain.Incident.{Incident, IncidentEvent}
use xisnove.Sqlite.Tables.{Db, is_null, nullable_time, find, count_where, update_where}
use xisnove.Sqlite.Runs.{has_monitor}

-- WHERE monitor_id = ? AND recovered_at IS NULL
abbrev pub is_active_of : String → Incident → Bool
is_active_of monitor_id i = str_eq i.monitor_id monitor_id && is_null i.recovered_at

unfoldable pub get_active : String → Query Db (Option Incident)
get_active monitor_id db = (ok (find (is_active_of monitor_id) db.incidents), db)

-- OpenIncident, under the unique index on the active incident of a monitor.
unfoldable pub open_incident_row : Incident → Query Db (Unit {0})
open_incident_row i db =
    if any (λ (k : Incident). str_eq k.id i.id) db.incidents
      || any (is_active_of i.monitor_id) db.incidents
      || not (has_monitor i.monitor_id db)
    then (err conflict, db)
    else (ok tt, record db { incidents = db.incidents ++ record i { recovered_at = none } ∷ [] })

-- WHERE id = ? AND recovered_at IS NULL
abbrev pub is_open : String → Incident → Bool
is_open id i = str_eq i.id id && is_null i.recovered_at

unfoldable pub recover_row : Incident → Incident → Incident
recover_row new i = record i {
  state = new.state;
  last_transition_at = new.last_transition_at;
  recovered_at = nullable_time new.recovered_at;
}

unfoldable pub change_row : Incident → Incident → Incident
change_row new i = record i {
  state = new.state;
  severity = new.severity;
  last_transition_at = new.last_transition_at;
}

unfoldable pub update_incident : Incident → Query Db (Unit {0})
update_incident i db =
    let change = if is_null i.recovered_at then change_row i else recover_row i in
    (
      (if count_where (is_open i.id) db.incidents == 1 then ok tt else err conflict),
      record db { incidents = update_where (is_open i.id) change db.incidents },
    )

unfoldable pub append_incident_event : IncidentEvent → Query Db (Unit {0})
append_incident_event e db =
    if any (λ (k : IncidentEvent). str_eq k.id e.id) db.incident_events
      || not (any (λ (i : Incident). str_eq i.id e.incident_id) db.incidents)
    then (err conflict, db)
    else (ok tt, record db { incident_events = db.incident_events ++ e ∷ [] })
