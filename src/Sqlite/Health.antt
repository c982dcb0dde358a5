-- ===== src/Sqlite/Health.antt =====
-- The healthRepository of internal/adapters/sqlitecompat/store.go with
-- db/generated/sqlite/health.sql.go.
pub mod Monitors
pub mod Spares
pub mod Stale
use text.Mathlib.Text.{◌==◌ as str_eq}
use xisnove.Prelude.{
  ℕ, String, Bool, not, ◌&&◌, ◌||◌, List, [], ◌∷◌, ◌++◌, Option, none, some, any, take, map, ◌==◌,
  if◌then◌else◌,
}
use xisnove.Prelude.Int.{ltb_ℤ, leb_ℤ, eqb_ℤ}
use xisnove.Result.{Result, ok, err, other, not_found}
use xisnove.Action.{Query}
use xisnove.Domain.Health.{pending, unknown, Time, zero_time, LocationHealth, MonitorHealth}
use xisnove.Application.Records.{MonitorLocation}
use xisnove.Sqlite.Tables.{
  Engine, Db, find, select, count_where, update_where, order_by, text_lt, then_by,
}
use xisnove.Sqlite.Mapping.{map_location_health, map_all}
use xisnove.Sqlite.Runs.{has_monitor, has_location}

abbrev pub is_at : String → String → LocationHealth → Bool
is_at monitor_id location_id h = str_eq h.monitor_id monitor_id && str_eq h.location_id location_id

found : Option LocationHealth → Result LocationHealth
found none = err not_found
found (some h) = map_location_health h

unfoldable pub get_location_health : String → String → Query Db LocationHealth
unfolding found
get_location_health monitor_id location_id db =
    (found (find (is_at monitor_id location_id) db.location_health), db)

-- The two upserts of this repository do not go through `repositoryError`.
unfoldable pub upsert_location_health : LocationHealth → Query Db (Unit {0})
upsert_location_health h db =
    if any (is_at h.monitor_id h.location_id) db.location_health
    then (
      ok tt,
      record db {
        location_health =
            update_where (is_at h.monitor_id h.location_id) (λ _. h) db.location_health;
      },
    )
    else if not (has_monitor h.monitor_id db) || not (has_location h.location_id db)
    then (err (other "upsert location health"), db)
    else (ok tt, record db { location_health = db.location_health ++ h ∷ [] })

-- COALESCE of the columns of the LEFT JOIN.
coalesce : MonitorLocation → Option LocationHealth → LocationHealth
coalesce a none = record {
  monitor_id = a.monitor_id;
  location_id = a.location_id;
  state = pending;
  consecutive_failures = 0;
  consecutive_successes = 0;
  last_observed_at = zero_time;
  last_transition_at = zero_time;
  stale_at = zero_time;
}
coalesce a (some h) = h

unfoldable pub joined_health : List LocationHealth → MonitorLocation → LocationHealth
unfolding coalesce
joined_health rows a = coalesce a (find (is_at a.monitor_id a.location_id) rows)

unfoldable pub list_required_locations : String → Query Db (List LocationHealth)
list_required_locations monitor_id db = (
  map_all map_location_health (
      map (joined_health db.location_health) (
        order_by (λ (a b : MonitorLocation). text_lt a.location_id b.location_id)
          (select (λ (a : MonitorLocation). str_eq a.monitor_id monitor_id && a.required)
            db.monitor_locations))),
  db,
)

found_monitor : Option MonitorHealth → Result MonitorHealth
found_monitor none = err not_found
found_monitor (some h) = ok h

unfoldable pub get_monitor_health : String → Query Db MonitorHealth
unfolding found_monitor
get_monitor_health monitor_id db = (
  found_monitor (find (λ (h : MonitorHealth). str_eq h.monitor_id monitor_id) db.monitor_health),
  db,
)

unfoldable pub upsert_monitor_health : MonitorHealth → Query Db (Unit {0})
upsert_monitor_health h db =
    let of_monitor = λ (k : MonitorHealth). str_eq k.monitor_id h.monitor_id in
    if any of_monitor db.monitor_health
    then (ok tt, record db { monitor_health = update_where of_monitor (λ _. h) db.monitor_health })
    else if not (has_monitor h.monitor_id db)
    then (err (other "upsert monitor health"), db)
    else (ok tt, record db { monitor_health = db.monitor_health ++ h ∷ [] })

module _ (engine : Engine) where
  -- stale_at IS NOT NULL AND julianday(stale_at) <= julianday(now)
  abbrev pub is_stale : Time → LocationHealth → Bool
  is_stale now h =
      not (eqb_ℤ h.stale_at zero_time) && leb_ℤ (engine.julianday h.stale_at) (engine.julianday now)

  -- ORDER BY julianday(stale_at), monitor_id, location_id
  abbrev pub stale_before : LocationHealth → LocationHealth → Bool
  stale_before a b =
      then_by (ltb_ℤ (engine.julianday a.stale_at) (engine.julianday b.stale_at))
        (eqb_ℤ (engine.julianday a.stale_at) (engine.julianday b.stale_at))
        (then_by (text_lt a.monitor_id b.monitor_id) (str_eq a.monitor_id b.monitor_id)
          (text_lt a.location_id b.location_id))

  unfoldable pub list_stale : Time → ℕ → Query Db (List LocationHealth)
  list_stale now limit db = (
    map_all map_location_health
        (take limit (order_by stale_before (select (is_stale now) db.location_health))),
    db,
  )

  -- The WHERE clause of ClaimStaleLocationHealth; a NULL equals nothing.
  abbrev pub is_claimed : String → String → Time → Time → LocationHealth → Bool
  is_claimed monitor_id location_id stale_at transition_at h =
      is_at monitor_id location_id h
      && not (eqb_ℤ stale_at zero_time)
      && eqb_ℤ h.stale_at stale_at
      && leb_ℤ (engine.julianday h.stale_at) (engine.julianday transition_at)

  unfoldable pub stale_row : Time → LocationHealth → LocationHealth
  stale_row transition_at h = record h {
    state = unknown;
    consecutive_failures = 0;
    consecutive_successes = 0;
    last_transition_at = transition_at;
    stale_at = zero_time;
  }

  unfoldable pub claim_stale : String → String → Time → Time → Query Db Bool
  claim_stale monitor_id location_id stale_at transition_at db =
      let claimed = is_claimed monitor_id location_id stale_at transition_at in
      (
        ok (count_where claimed db.location_health == 1),
        record db {
          location_health = update_where claimed (stale_row transition_at) db.location_health;
        },
      )
