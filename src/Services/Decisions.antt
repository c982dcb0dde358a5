-- ===== src/Services/Decisions.antt =====
-- The parts of `projectAggregateAndIncident` of internal/application/projection.go over the tables.
use text.Mathlib.TextEquality.{eq_iff}
use xisnove.Prelude.{
  ◌≡◌, refl, sym, ap, ◌∙◌, String, true, false, not, List, Option, none, some, arith, ◌≤◌,
}
use xisnove.Prelude.Int.{eqb_ℤ}
use xisnove.Result.{ok}
use xisnove.Action.{World, Query, pure, run_query, ask}
use xisnove.Action.Meets.{
  Meets, Meets-run_query, Meets-pure, Meets-ask, Meets-if, Meets-bind, ok_injective,
}
use xisnove.Domain.Health.{
  Time, zero_time, HealthState, pending, up, down, degraded, unknown, other, state_eq,
  LocationHealth, MonitorHealth, rollup_required,
}
use xisnove.Domain.Incident.{
  Incident, IncidentEvent, IncidentAction, no_action, open_incident, change, recover,
  IncidentDecision, decide_incident,
}
use xisnove.Domain.Incident.Cases.{IsDecision}
use xisnove.Domain.Incident.Lifecycle.{active_after}
use xisnove.Application.Environment.{Environment}
use xisnove.Application.Projection.{
  project_aggregate, decide, store_decision, append_event, record_decision,
}
use mathlib.Core.Path.{subst}
use xisnove.Sqlite.Tables.{find, Db, count_where}
use xisnove.Sqlite.Health.{list_required_locations, get_monitor_health, upsert_monitor_health}
use xisnove.Sqlite.Health.Monitors.{get_monitor_health-upsert}
use xisnove.Sqlite.Incidents.{
  is_active_of, open_incident_row, update_incident, append_incident_event,
}
use xisnove.Sqlite.Incidents.Active.{active_of, active_of-open, active_of-change, active_of-recover}
use xisnove.Services.{Backend, on_sqlite}
use xisnove.Sqlite.Health.Spares.{
  listed_same, health_same, SparesHealth, open_incident_row-SparesHealth,
  update_incident-SparesHealth, append_incident_event-SparesHealth, appended, upsert_assignments,
  upsert_locations, upsert_incidents,
}

same_state : (s t : HealthState) → state_eq s t ≡ true → t ≡ s
same_state pending t h = ground arith
same_state up t h = ground arith
same_state down t h = ground arith
same_state degraded t h = ground arith
same_state unknown t h = ground arith
same_state (other a) pending h = ground arith
same_state (other a) up h = ground arith
same_state (other a) down h = ground arith
same_state (other a) degraded h = ground arith
same_state (other a) unknown h = ground arith
same_state (other a) (other c) h = ap other (sym ((eq_iff a c).0 h))

module _ (b : Backend) (env : Environment Db) (m : String) where
  abbrev here : Environment Db
  here = on_sqlite b env

  -- The required locations and the health of the monitor that the projection rests on.
  abbrev pub IsRolledUp : List LocationHealth → Db → Type 0
  IsRolledUp xs db =
      ((list_required_locations m db).0 ≡ ok xs)
      × ((h : MonitorHealth) × ((get_monitor_health m db).0 ≡ ok h)
          × (h.state ≡ rollup_required xs))

  pub project_aggregate-Meets :
      (d0 : Db) (xs : List LocationHealth) (h : MonitorHealth) (at : Time)
      → (list_required_locations m d0).0 ≡ ok xs
      → (get_monitor_health m d0).0 ≡ ok h
      → Meets
          (λ d. d ≡ d0)
          (project_aggregate here h (rollup_required xs) at)
          (λ _ d. IsRolledUp xs d × (d.incidents ≡ d0.incidents))
  unfolding project_aggregate
  project_aggregate-Meets d0 xs h at l g =
      let set : MonitorHealth = record h { state = rollup_required xs; last_transition_at = at } in
      Meets-if (not (state_eq (rollup_required xs) h.state)) (run_query (upsert_monitor_health set))
        (pure tt)
        (λ e. Meets-run_query (upsert_monitor_health set) (λ d a p r. rw p (
          (
            listed_same m d0 (upsert_monitor_health set d0).1 (upsert_assignments set d0)
                  (upsert_locations set d0)
                ∙ l,
            (set, get_monitor_health-upsert m h (rollup_required xs) at d0 g, refl),
          ),
          upsert_incidents set d0,
        )))
        (λ e. Meets-pure tt (λ d p.
          rw p ((l, (h, g, same_state (rollup_required xs) h.state (ground (arith, e)))), refl)))

  rolled_same :
      (xs : List LocationHealth) (q : Query Db (Unit {0})) (d : Db)
      → SparesHealth q
      → IsRolledUp xs d
      → IsRolledUp xs (q d).1
  rolled_same xs q d s (l, (h, g, e)) = (
    listed_same m d (q d).1 (s.assignments d) (s.locations d) ∙ l,
    (h, health_same m d (q d).1 (s.monitors d) ∙ g, e),
  )

  append_event-Meets :
      (xs : List LocationHealth) (active : Option Incident) (dec : IncidentDecision) (at : Time)
      → Meets
          (λ d. IsRolledUp xs d × (active_of m d ≡ active))
          (append_event here dec at)
          (λ _ d. IsRolledUp xs d × (active_of m d ≡ active))
  unfolding append_event
  append_event-Meets xs active dec at =
      Meets-bind (λ _ d. IsRolledUp xs d × (active_of m d ≡ active)) (ask env.new_id) _
        (Meets-ask env.new_id (λ d n p. p))
        λ id.
          let event : IncidentEvent = record {
            id = id;
            incident_id = dec.incident.id;
            previous_state = dec.previous_state;
            state = dec.incident.state;
            severity = dec.incident.severity;
            created_at = at;
          } in
          Meets-run_query (append_incident_event event) λ d u p r. (
            rolled_same xs (append_incident_event event) d
                (append_incident_event-SparesHealth event) p.0,
            ap (find (is_active_of m)) (appended event d) ∙ p.1,
          )

  module _ (xs : List LocationHealth) (active : Option Incident) (at : Time)
      (nonzero : eqb_ℤ at zero_time ≡ false) where
    -- Before a decision is stored.
    abbrev pub IsReady : Db → Type 0
    IsReady d =
        IsRolledUp xs d × (active_of m d ≡ active) × (count_where (is_active_of m) d.incidents ≤ 1)

    abbrev IsStored : IncidentDecision → Db → Type 0
    IsStored dec d = IsRolledUp xs d × (active_of m d ≡ active_after active dec)

    opened_active :
        (d : Db) (i : Incident) (s : HealthState)
        → IsDecision active m at
            (record { action = open_incident; incident = i; previous_state = s })
        → (open_incident_row i d).0 ≡ ok tt
        → active_of m (open_incident_row i d).1 ≡ some i
    opened_active d i s (IsDecision.opens n a k r) e = active_of-open m i d k r e
    opened_active d i s (IsDecision.rests a) e = absurd (ground arith)
    opened_active d i s (IsDecision.changes j t v n a k) e = absurd (ground arith)
    opened_active d i s (IsDecision.recovers j n a k r) e = absurd (ground arith)

    changed_active :
        (d : Db) (i : Incident) (s : HealthState)
        → IsDecision active m at (record { action = change; incident = i; previous_state = s })
        → active_of m d ≡ active
        → active_of m (update_incident i d).1 ≡ some i
    changed_active d i s (IsDecision.changes j t v n a k) e =
        subst (λ (x : Incident). active_of m (update_incident x d).1 ≡ some x) (sym k)
          (active_of-change m j t v at d (e ∙ n))
    changed_active d i s (IsDecision.opens n a k r) e = absurd (ground arith)
    changed_active d i s (IsDecision.rests a) e = absurd (ground arith)
    changed_active d i s (IsDecision.recovers j n a k r) e = absurd (ground arith)

    recovered_active :
        (d : Db) (i : Incident) (s : HealthState)
        → IsDecision active m at (record { action = recover; incident = i; previous_state = s })
        → active_of m d ≡ active
        → count_where (is_active_of m) d.incidents ≤ 1
        → active_of m (update_incident i d).1 ≡ none
    recovered_active d i s (IsDecision.recovers j n a k r) e one =
        active_of-recover m j i d (e ∙ n) one k (rw r refl) (rw (r, nonzero) refl)
    recovered_active d i s (IsDecision.opens n a k r) e one = absurd (ground arith)
    recovered_active d i s (IsDecision.rests a) e one = absurd (ground arith)
    recovered_active d i s (IsDecision.changes j t v n a k) e one = absurd (ground arith)

    pub record_decision-Meets :
        (a : IncidentAction) (i : Incident) (s : HealthState)
        → let dec : IncidentDecision = record { action = a; incident = i; previous_state = s } in
          IsDecision active m at dec
          → Meets IsReady (record_decision here dec at) (λ _. IsStored dec)
    unfolding record_decision store_decision active_after
    record_decision-Meets no_action i s c = Meets-pure tt (λ d p. (p.0, p.1))
    record_decision-Meets open_incident i s c =
        Meets-bind (λ _ d. IsRolledUp xs d × (active_of m d ≡ some i))
          (run_query (open_incident_row i)) _
          (Meets-run_query (open_incident_row i) λ d u p r. (
            rolled_same xs (open_incident_row i) d (open_incident_row-SparesHealth i) p.0,
            opened_active d i s c r,
          ))
          λ u.
            append_event-Meets xs (some i)
              (record { action = open_incident; incident = i; previous_state = s }) at
    record_decision-Meets change i s c =
        Meets-bind (λ _ d. IsRolledUp xs d × (active_of m d ≡ some i))
          (run_query (update_incident i)) _
          (Meets-run_query (update_incident i) λ d u p r. (
            rolled_same xs (update_incident i) d (update_incident-SparesHealth i) p.0,
            changed_active d i s c p.1,
          ))
          λ u.
            append_event-Meets xs (some i)
              (record { action = change; incident = i; previous_state = s }) at
    record_decision-Meets recover i s c =
        Meets-bind (λ _ d. IsRolledUp xs d × (active_of m d ≡ none)) (run_query (update_incident i))
          _
          (Meets-run_query (update_incident i) λ d u p r. (
            rolled_same xs (update_incident i) d (update_incident-SparesHealth i) p.0,
            recovered_active d i s c p.1 p.2,
          ))
          λ u.
            append_event-Meets xs none
              (record { action = recover; incident = i; previous_state = s }) at

  decided :
      (active : Option Incident) (aggregate : HealthState) (at : Time) (w : World Db)
      → ((decide here active m aggregate at w).0
          ≡ ok (decide_incident active m aggregate at (env.new_id w.asked)))
        × ((decide here active m aggregate at w).1.db ≡ w.db)
  unfolding decide
  decided active aggregate at w = ground arith

  abbrev pub IsMadeBy : Option Incident → HealthState → Time → IncidentDecision → Type 0
  IsMadeBy active aggregate at d = (id : String) × (d ≡ decide_incident active m aggregate at id)

  pub decide-Meets :
      (P : Db → Type 0) (active : Option Incident) (aggregate : HealthState) (at : Time)
      → Meets P (decide here active m aggregate at) (λ d db. P db × IsMadeBy active aggregate at d)
  decide-Meets P active aggregate at = record {
    at = λ w d p e.
        let (r, s) = decided active aggregate at w in
        (subst P (sym s) p, (env.new_id w.asked, ok_injective (sym e ∙ r)));
  }
