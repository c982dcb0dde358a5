-- ===== src/Sqlite/Health/Monitors.antt =====
-- The row of monitor_health after an upsert of what was read from it.
use text.Mathlib.Text.{◌==◌ as str_eq}
use text.Mathlib.TextEquality.{eq_iff}
use text.Mathlib.TextPositions.{eq_refl}
use xisnove.Prelude.{◌≡◌, ap, String, Bool, true, List, [], ◌∷◌, Option, none, some, arith, any}
use xisnove.Result.{ok}
use xisnove.Domain.Health.{Time, HealthState, MonitorHealth}
use xisnove.Sqlite.Tables.{Db, find, update_where}
use xisnove.Sqlite.Tables.Laws.{find-holds, find-any}
use xisnove.Sqlite.Health.{found_monitor, get_monitor_health, upsert_monitor_health}

find-overwritten :
    (p : MonitorHealth → Bool) (s : MonitorHealth) (rows : List MonitorHealth)
    → any p rows ≡ true
    → p s ≡ true
    → find p (update_where p (λ _. s) rows) ≡ some s
unfolding find update_where
find-overwritten p s [] h k = ground arith
find-overwritten p s (r ∷ rows) h k = ground (arith, find-overwritten p s rows, h, k)

found_some : (o : Option MonitorHealth) (h : MonitorHealth) → found_monitor o ≡ ok h → o ≡ some h
unfolding found_monitor
found_some none h e = absurd (ground arith)
found_some (some k) h e = ground arith

-- What was read of a monitor's health, written back with another state and time, is read again.
pub get_monitor_health-upsert :
    (m : String) (h : MonitorHealth) (state : HealthState) (at : Time) (db : Db)
    → (get_monitor_health m db).0 ≡ ok h
    → let new = record h { state = state; last_transition_at = at } in
      (get_monitor_health m (upsert_monitor_health new db).1).0 ≡ ok new
unfolding get_monitor_health upsert_monitor_health found_monitor
get_monitor_health-upsert m h state at db e =
    let of : MonitorHealth → Bool = λ k. str_eq k.monitor_id m in
    let f : find of db.monitor_health ≡ some h = found_some (find of db.monitor_health) h e in
    let t : str_eq h.monitor_id m ≡ true = find-holds of db.monitor_health h f in
    let q : h.monitor_id ≡ m = (eq_iff h.monitor_id m).0 t in
    rw (q, find-any of db.monitor_health f)
      (ap found_monitor (
        find-overwritten of (record { monitor_id = m; state = state; last_transition_at = at })
          db.monitor_health (find-any of db.monitor_health f) (eq_refl m)))
