-- ===== src/Services/Projection.antt =====
-- `projectAggregateAndIncident` of internal/application/projection.go over the tables.
use xisnove.Prelude.{
  ◌≡◌, refl, sym, ap, ◌∙◌, String, Bool, true, false, not, ◌&&◌, List, Option, none, some, arith,
  ◌≤◌, if◌then◌else◌,
}
use xisnove.Prelude.Int.{eqb_ℤ}
use xisnove.Result.{ok}
use xisnove.Action.{World, Action, Query, pure, run_query, ◌>>=◌}
use xisnove.Action.Meets.{Meets, Meets-run_query, Meets-pure, Meets-if, Meets-bind, ok_injective}
use xisnove.Domain.Health.{
  Time, zero_time, HealthState, unknown, state_eq, LocationHealth, MonitorHealth, rollup_required,
}
use xisnove.Domain.Incident.{Incident, IncidentDecision}
use xisnove.Domain.Incident.Cases.{IsDecision, decide_incident-IsDecision}
use xisnove.Domain.Incident.Lifecycle.{
  IsActive, active_after, Alarm, alarm, alarm_after, alarm-step,
}
use xisnove.Application.Environment.{Environment}
use xisnove.Application.Projection.{
  is_none, project_aggregate, decide, record_decision, project_aggregate_and_incident,
}
use mathlib.Core.Path.{subst}
use xisnove.Sqlite.Tables.{find, Db, count_where}
use xisnove.Sqlite.Health.{list_required_locations, get_monitor_health}
use xisnove.Sqlite.Incidents.{is_active_of, get_active}
use xisnove.Sqlite.Incidents.Active.{active_of}
use xisnove.Services.{Backend, on_sqlite}
use xisnove.Services.Decisions.{
  IsRolledUp, IsReady, IsMadeBy, project_aggregate-Meets, record_decision-Meets, decide-Meets,
}
use xisnove.Sqlite.Health.Spares.{listed_stays, gets_stays, active_stays, active_read}

-- What a projection makes of the alarm: an unknown monitor without an incident is left alone unless
-- incidents are to be opened for it.
abbrev pub alarm_under : Bool → Alarm → HealthState → Alarm
alarm_under open_unknown a aggregate =
    if is_none a && state_eq aggregate unknown && not open_unknown
    then a
    else alarm_after a aggregate

quiet_alarm :
    (open_unknown : Bool) (active : Option Incident) (aggregate : HealthState)
    → (is_none active && state_eq aggregate unknown && not open_unknown) ≡ true
    → alarm_under open_unknown (alarm active) aggregate ≡ alarm active
quiet_alarm open_unknown none aggregate h = rw h refl
quiet_alarm open_unknown (some i) aggregate h = absurd (ground (arith, h))

loud_alarm :
    (open_unknown : Bool) (active : Option Incident) (aggregate : HealthState)
    → (is_none active && state_eq aggregate unknown && not open_unknown) ≡ false
    → alarm_under open_unknown (alarm active) aggregate ≡ alarm_after (alarm active) aggregate
loud_alarm open_unknown none aggregate h = rw h refl
loud_alarm open_unknown (some i) aggregate h = refl

module _ (b : Backend) (env : Environment Db) (m : String) where
  abbrev here : Environment Db
  here = on_sqlite b env

  -- The monitor's health is the rollup of its required locations, and its alarm follows from the old one.
  pub record IsProjected (open_unknown : Bool) (a : Alarm) (db : Db) : Type 0 where
    pub locations : List LocationHealth
    pub health : MonitorHealth
    pub listed : (list_required_locations m db).0 ≡ ok locations
    pub stored : (get_monitor_health m db).0 ≡ ok health
    pub rolled : health.state ≡ rollup_required locations
    pub raised : alarm (active_of m db) ≡ alarm_under open_unknown a health.state

  module _ (d0 : Db) (at : Time) (open_unknown : Bool) (nonzero : eqb_ℤ at zero_time ≡ false)
      (one : count_where (is_active_of m) d0.incidents ≤ 1)
      (valid : IsActive m (active_of m d0)) where
    conclude :
        (d : Db) (xs : List LocationHealth)
        → IsRolledUp b env m xs d
        → alarm (active_of m d)
          ≡ alarm_under open_unknown (alarm (active_of m d0)) (rollup_required xs)
        → IsProjected open_unknown (alarm (active_of m d0)) d
    conclude d xs (l, (h, g, e)) r = record {
      locations = xs;
      health = h;
      listed = l;
      stored = g;
      rolled = e;
      raised = r ∙ ap (alarm_under open_unknown (alarm (active_of m d0))) (sym e);
    }

    -- What is known when the active incident has been read.
    abbrev IsRead : List LocationHealth → Option Incident → Db → Type 0
    IsRead xs active d =
        IsRolledUp b env m xs d × (d.incidents ≡ d0.incidents) × (active ≡ active_of m d0)

    -- Storing a decision about the incident that was read.
    settled :
        (xs : List LocationHealth) (active : Option Incident) (dec : IncidentDecision)
        → (is_none active && state_eq (rollup_required xs) unknown && not open_unknown) ≡ false
        → Meets
            (λ d. IsRead xs active d × IsMadeBy b env m active (rollup_required xs) at dec)
            (record_decision here dec at)
            (λ _. IsProjected open_unknown (alarm (active_of m d0)))
    settled xs active dec loud = record {
      at = λ w u p e.
          let ((rolled, same, now), (id, made)) = p in
          let decision : IsDecision active m at dec =
            subst (IsDecision active m at) (sym made)
              (decide_incident-IsDecision active m (rollup_required xs) at id) in
          let ready : IsReady b env m xs active at nonzero w.db =
            (rolled, ap (find (is_active_of m)) same ∙ sym now, rw same one) in
          let (rolled', now') =
            (record_decision-Meets b env m xs active at nonzero dec.action dec.incident
                dec.previous_state decision).at
              w u ready e in
          conclude (record_decision here dec at w).1.db xs rolled' (
            ap alarm now'
            ∙ ap (λ x. alarm (active_after active x)) made
            ∙ alarm-step active m (rollup_required xs) at id (subst (IsActive m) (sym now) valid)
            ∙ sym (loud_alarm open_unknown active (rollup_required xs) loud)
            ∙ ap (λ x. alarm_under open_unknown (alarm x) (rollup_required xs)) now);
    }

    acted :
        (xs : List LocationHealth) (active : Option Incident)
        → Meets
            (IsRead xs active)
            (if is_none active && state_eq (rollup_required xs) unknown && not open_unknown
              then pure tt
              else decide here active m (rollup_required xs) at >>= λ dec.
                  record_decision here dec at)
            (λ _. IsProjected open_unknown (alarm (active_of m d0)))
    acted xs active =
        let act : Action Db (Unit {0}) =
          decide here active m (rollup_required xs) at >>= λ dec. record_decision here dec at in
        Meets-if (is_none active && state_eq (rollup_required xs) unknown && not open_unknown)
          (pure tt) act
          (λ c. Meets-pure tt λ d p. conclude d xs p.0 (
            ap (λ x. alarm (find (is_active_of m) x)) p.1
            ∙ sym (
                quiet_alarm open_unknown (active_of m d0) (rollup_required xs) (
                  ap (λ x. is_none x && state_eq (rollup_required xs) unknown && not open_unknown)
                    (sym p.2)
                  ∙ c))))
          (λ c.
            Meets-bind
              (λ dec d. IsRead xs active d × IsMadeBy b env m active (rollup_required xs) at dec)
              (decide here active m (rollup_required xs) at) (λ dec. record_decision here dec at)
              (decide-Meets b env m (IsRead xs active) active (rollup_required xs) at)
              (λ dec. settled xs active dec c))

    projected :
        Meets
          (λ d. d ≡ d0)
          (project_aggregate_and_incident here m at open_unknown)
          (λ _. IsProjected open_unknown (alarm (active_of m d0)))
    unfolding project_aggregate_and_incident
    projected =
        let list : Query Db (List LocationHealth) = list_required_locations m in
        let get : Query Db MonitorHealth = get_monitor_health m in
        let active : Query Db (Option Incident) = get_active m in
        Meets-bind (λ xs d. (d ≡ d0) × ((list d0).0 ≡ ok xs)) (run_query list) _
          (Meets-run_query list
            (λ d xs p r. (listed_stays m d ∙ p, ap (λ x. (list x).0) (sym p) ∙ r)))
          λ xs.
            Meets-bind (λ h d. (d ≡ d0) × ((list d0).0 ≡ ok xs) × ((get d0).0 ≡ ok h))
              (run_query get) _
              (Meets-run_query get
                (λ d h p r. (gets_stays m d ∙ p.0, p.1, ap (λ x. (get x).0) (sym p.0) ∙ r)))
              λ h.
                Meets-bind (λ _ d. IsRolledUp b env m xs d × (d.incidents ≡ d0.incidents))
                  (project_aggregate here h (rollup_required xs) at) _
                  (record {
                    at = λ w u p e.
                        (project_aggregate-Meets b env m d0 xs h at p.1 p.2).at w u p.0 e;
                  })
                  λ u.
                    Meets-bind (IsRead xs) (run_query active) _
                      (Meets-run_query active (λ d a p r. (
                        subst (IsRolledUp b env m xs) (sym (active_stays m d)) p.0,
                        ap (λ (x : Db). x.incidents) (active_stays m d) ∙ p.1,
                        ok_injective (sym r ∙ active_read m d) ∙ ap (find (is_active_of m)) p.1,
                      )))
                      λ a. acted xs a

  -- Let the time of a projection not be the zero time, let at most one incident of the monitor be
  -- active, and let it be well formed. A projection that succeeds then leaves the monitor's health at the
  -- rollup of its required locations, and the alarm of its active incident is the one that this health
  -- raises from the alarm before: none for up, critical for down, a warning for degraded or unknown, and
  -- the alarm before for any other, or for unknown when none was raised and incidents are not to be
  -- opened for it.
  pub project_aggregate_and_incident-IsProjected :
      (w : World Db) (at : Time) (open_unknown : Bool)
      → eqb_ℤ at zero_time ≡ false
      → count_where (is_active_of m) w.db.incidents ≤ 1
      → IsActive m (active_of m w.db)
      → (project_aggregate_and_incident here m at open_unknown w).0 ≡ ok tt
      → IsProjected open_unknown
          (alarm (active_of m w.db))
          (project_aggregate_and_incident here m at open_unknown w).1.db
  project_aggregate_and_incident-IsProjected w at open_unknown nonzero one valid e =
      (projected w.db at open_unknown nonzero one valid).at w tt refl e
