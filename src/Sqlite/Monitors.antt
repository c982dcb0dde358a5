-- ===== src/Sqlite/Monitors.antt =====
-- The locationRepository and monitorRepository of internal/adapters/sqlitecompat/store.go with
-- db/generated/sqlite/configuration.sql.go.
pub mod Reload
use text.Mathlib.Text.{◌==◌ as str_eq}
use xisnove.Prelude.{
  ℕ, String, Bool, not, ◌&&◌, ◌||◌, List, [], ◌∷◌, ◌++◌, Option, none, some, any, take, map, ltb,
  ◌==◌, if◌then◌else◌,
}
use xisnove.Prelude.Int.{pos, ltb_ℤ, leb_ℤ, eqb_ℤ}
use xisnove.Result.{Result, ok, err, conflict, not_found, and_then}
use xisnove.Action.{Query}
use xisnove.Domain.Health.{Time}
use xisnove.Domain.Agent.{Location}
use xisnove.Domain.Monitor.{Monitor, probe_of}
use xisnove.Domain.Monitor.Build.{Library}
use xisnove.Application.Records.{MonitorLocation, DueMonitor}
use xisnove.Sqlite.Tables.{
  Engine, MonitorRow, Db, milliseconds, find, select, count_where, update_where, order_by, text_lt,
  then_by,
}
use xisnove.Sqlite.Mapping.{map_monitor, map_all}
use xisnove.Sqlite.Runs.{is_probe_kind, has_monitor, has_location}

unfoldable pub create_location : Location → Query Db (Unit {0})
create_location l db =
    if any (λ (k : Location). str_eq k.id l.id || str_eq k.name l.name) db.locations
    then (err conflict, db)
    else (ok tt, record db { locations = db.locations ++ l ∷ [] })

or_not_found {ℓ} : {A : Type ℓ} → Option A → Result A
or_not_found none = err not_found
or_not_found (some a) = ok a

unfoldable pub get_location : String → Query Db Location
unfolding or_not_found
get_location id db = (or_not_found (find (λ (l : Location). str_eq l.id id) db.locations), db)

unfoldable pub monitor_row : Monitor → MonitorRow
monitor_row m = record {
  id = m.id;
  name = m.name;
  kind = m.kind;
  interval_ms = milliseconds m.interval;
  timeout_ms = milliseconds m.timeout;
  failure_threshold = m.failure_threshold;
  recovery_threshold = m.recovery_threshold;
  probe = probe_of m;
  enabled = m.enabled;
  next_run_at = m.next_run_at;
  created_at = m.created_at;
  updated_at = m.updated_at;
}

-- The CHECK constraints of the table.
abbrev pub row_checked : MonitorRow → Bool
row_checked row =
    is_probe_kind row.kind
    && ltb_ℤ (pos 0) row.interval_ms
    && ltb_ℤ (pos 0) row.timeout_ms
    && ltb_ℤ row.timeout_ms row.interval_ms
    && ltb 0 row.failure_threshold
    && ltb 0 row.recovery_threshold

unfoldable pub create_monitor : Monitor → Query Db (Unit {0})
create_monitor m db =
    let row = monitor_row m in
    if not (row_checked row)
      || any (λ (k : MonitorRow). str_eq k.id row.id || str_eq k.name row.name) db.monitors
    then (err conflict, db)
    else (ok tt, record db { monitors = db.monitors ++ row ∷ [] })

mapped : Library → Option MonitorRow → Result Monitor
mapped library none = err not_found
mapped library (some row) = map_monitor library row

unfoldable pub get_monitor : Library → String → Query Db Monitor
unfolding mapped
get_monitor library id db =
    (mapped library (find (λ (m : MonitorRow). str_eq m.id id) db.monitors), db)

abbrev pub same_assignment : MonitorLocation → MonitorLocation → Bool
same_assignment a b = str_eq a.monitor_id b.monitor_id && str_eq a.location_id b.location_id

unfoldable pub assign_location : MonitorLocation → Query Db (Unit {0})
assign_location a db =
    if not (has_monitor a.monitor_id db) || not (has_location a.location_id db)
    then (err conflict, db)
    else (
      ok tt,
      record db {
        monitor_locations =
            if any (same_assignment a) db.monitor_locations
            then update_where (same_assignment a) (λ _. a) db.monitor_locations
            else db.monitor_locations ++ a ∷ [];
      },
    )

head_row : List MonitorLocation → Result MonitorLocation
head_row [] = err not_found
head_row (a ∷ rest) = ok a

-- ORDER BY location_id LIMIT 1
unfoldable pub get_assignment : String → Query Db MonitorLocation
unfolding head_row
get_assignment monitor_id db = (
  head_row (
      order_by (λ (a b : MonitorLocation). text_lt a.location_id b.location_id)
        (select (λ (a : MonitorLocation). str_eq a.monitor_id monitor_id) db.monitor_locations)),
  db,
)

-- A row of the join of monitors and monitor_locations.
pub record DueRow : Type 0 where
  pub monitor : MonitorRow
  pub assignment : MonitorLocation

unfoldable pub join_assignments : List MonitorLocation → List MonitorRow → List DueRow
join_assignments assignments [] = []
join_assignments assignments (m ∷ rest) =
    map (λ (a : MonitorLocation). record { monitor = m; assignment = a })
      (select (λ (a : MonitorLocation). str_eq a.monitor_id m.id) assignments)
    ++ join_assignments assignments rest

unfoldable pub map_due : Library → DueRow → Result DueMonitor
map_due library row = and_then (map_monitor library row.monitor) λ m. ok (record {
  monitor = m;
  location_id = row.assignment.location_id;
  required = row.assignment.required;
  next_run_at = row.monitor.next_run_at;
})

module _ (engine : Engine) where
  abbrev pub is_due : Time → MonitorRow → Bool
  is_due now m = m.enabled && leb_ℤ (engine.julianday m.next_run_at) (engine.julianday now)

  -- ORDER BY julianday(m.next_run_at), m.id, ml.location_id
  abbrev pub due_before : DueRow → DueRow → Bool
  due_before r s =
      then_by
        (ltb_ℤ (engine.julianday r.monitor.next_run_at) (engine.julianday s.monitor.next_run_at))
        (eqb_ℤ (engine.julianday r.monitor.next_run_at) (engine.julianday s.monitor.next_run_at))
        (then_by (text_lt r.monitor.id s.monitor.id) (str_eq r.monitor.id s.monitor.id)
          (text_lt r.assignment.location_id s.assignment.location_id))

  unfoldable pub list_due : Library → Time → ℕ → Query Db (List DueMonitor)
  list_due library now limit db = (
    map_all (map_due library) (
        take limit (
          order_by due_before
            (join_assignments db.monitor_locations (select (is_due now) db.monitors)))),
    db,
  )

  -- WHERE id = ? AND next_run_at < ?, where the two times are compared as text.
  abbrev pub can_advance : String → Time → MonitorRow → Bool
  can_advance id next_run_at m = str_eq m.id id && engine.text_before m.next_run_at next_run_at

  unfoldable pub advance_row : Time → Time → MonitorRow → MonitorRow
  advance_row next_run_at updated_at m = record m {
    next_run_at = next_run_at;
    updated_at = updated_at;
  }

  unfoldable pub advance_next_run : String → Time → Time → Query Db Bool
  advance_next_run id next_run_at updated_at db = (
    ok (count_where (can_advance id next_run_at) db.monitors == 1),
    record db {
      monitors =
          update_where (can_advance id next_run_at) (advance_row next_run_at updated_at)
            db.monitors;
    },
  )
