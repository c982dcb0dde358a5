-- ===== src/Tests/Staleness.antt =====
-- The theorems on stale locations at concrete inputs.
use xisnove.Prelude.{◌≤◌, ◌≡◌, refl, true, false, [], ◌∷◌, arith}
use xisnove.Prelude.Int.{pos}
use xisnove.Result.{ok}
use xisnove.Action.{World}
use xisnove.Application.Projection.{project_aggregate_and_incident}
use xisnove.Domain.Incident.Lifecycle.{IsActive, alarm}
use xisnove.Sqlite.Tables.{Db, find, count_where}
use xisnove.Sqlite.Incidents.{is_active_of}
use xisnove.Sqlite.Incidents.Active.{active_of}
use xisnove.Application.Projection.{
  project_aggregate, decide, record_decision, store_decision, append_event,
}
use xisnove.Domain.Health.{rollup_required}
use xisnove.Domain.Incident.{decide_incident, severity_for}
use xisnove.Sqlite.Tables.{order_by, insert_by, select, update_where}
use xisnove.Sqlite.Mapping.{map_all, map_location_health}
use xisnove.Sqlite.Health.{
  list_required_locations, joined_health, get_monitor_health, upsert_monitor_health,
}
use xisnove.Sqlite.Incidents.{get_active, open_incident_row, append_incident_event}
use xisnove.Prelude.{◌≤◌}
use xisnove.Domain.Health.{up}
use xisnove.Application.Store.{within_tx}
use xisnove.Sqlite.Health.{claim_stale}
use xisnove.Sqlite.Health.Stale.{claim_stale-once}
use xisnove.Services.{on_sqlite}
use xisnove.Services.Projection.{IsProjected}
use xisnove.Tests.Domain.{fresh}
use xisnove.Tests.Store.{engine}
use xisnove.Application.Scheduler.{mark_one}
use xisnove.Sqlite.Health.{stale_row}
use xisnove.Domain.Health.{LocationHealth}
use xisnove.Services.Staleness.{mark_one-IsProjected}
use xisnove.Tests.Services.{backend, env, ready}

abbrev quiet : Db
quiet = record ready { location_health = record fresh { state = up; stale_at = pos 30 } ∷ [] }

claims : (claim_stale engine "m" "l" (pos 30) (pos 40) quiet).0 ≡ ok true
unfolding claim_stale count_where
claims = refl

claim_stale-once_example :
    let after = (claim_stale engine "m" "l" (pos 30) (pos 40) quiet).1 in
    claim_stale engine "m" "l" (pos 30) (pos 35) after ≡ (ok false, after)
claim_stale-once_example =
    claim_stale-once engine "m" "l" (pos 30) (pos 40) (pos 35) quiet
      (claim_stale engine "m" "l" (pos 30) (pos 40) quiet).1 claims refl

abbrev silent : LocationHealth
silent = record fresh { state = up; stale_at = pos 30 }

abbrev start : World Db
start = record { db = quiet; asked = 0 }

marks : (mark_one (on_sqlite backend env) silent (pos 40) start).0 ≡ ok true
unfolding mark_one within_tx claim_stale stale_row count_where project_aggregate_and_incident
    list_required_locations map_all order_by insert_by select map_location_health joined_health find
    get_monitor_health project_aggregate rollup_required upsert_monitor_health get_active decide
    decide_incident record_decision store_decision append_event severity_for update_where
    open_incident_row append_incident_event
marks = refl

at_most_one : count_where (is_active_of "m") quiet.incidents ≤ 1
unfolding count_where
at_most_one = omega arith

none-IsActive : IsActive "m" (active_of "m" quiet)
unfolding find
none-IsActive = tt

mark_one-IsProjected_example :
    IsProjected backend env "m" true
      (alarm (active_of "m" quiet))
      (mark_one (on_sqlite backend env) silent (pos 40) start).1.db
mark_one-IsProjected_example =
    mark_one-IsProjected backend env silent (pos 40) start refl at_most_one none-IsActive marks
