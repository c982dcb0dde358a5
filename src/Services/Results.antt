-- ===== src/Services/Results.antt =====
-- Which of the statements of a request change probe_results.
use xisnove.Prelude.{◌≡◌, refl, ◌∙◌, String, Bool, List, Option, arith}
use xisnove.Action.{Query, pure, run_query, ask}
use xisnove.Action.Keeps.{Keeps, Keeps-bind, Keeps-run_query, Keeps-ask, Keeps-pure, Keeps-if}
use xisnove.Domain.Health.{Time, HealthState, LocationHealth, MonitorHealth, rollup_required}
use xisnove.Domain.Incident.{Incident, IncidentEvent, IncidentDecision}
use xisnove.Application.Environment.{Environment}
use xisnove.Application.Records.{ProbeResultRecord}
use xisnove.Application.Projection.{
  project_aggregate, decide, store_decision, append_event, record_decision,
  project_aggregate_and_incident,
}
use xisnove.Sqlite.Tables.{Db}
use xisnove.Sqlite.Health.{
  list_required_locations, get_monitor_health, upsert_location_health, upsert_monitor_health,
}
use xisnove.Sqlite.Incidents.{get_active, open_incident_row, update_incident, append_incident_event}
use xisnove.Services.{Backend, on_sqlite}

-- The query leaves probe_results as they are.
abbrev pub SparesResults : {A : Type 0} → Query Db A → Type 0
SparesResults q = (db : Db) → (q db).1.probe_results ≡ db.probe_results

pub upsert_location_health-SparesResults :
    (h : LocationHealth) → SparesResults (upsert_location_health h)
unfolding upsert_location_health
upsert_location_health-SparesResults h db = ground arith

upsert_monitor_health-SparesResults : (h : MonitorHealth) → SparesResults (upsert_monitor_health h)
unfolding upsert_monitor_health
upsert_monitor_health-SparesResults h db = ground arith

open_incident_row-SparesResults : (i : Incident) → SparesResults (open_incident_row i)
unfolding open_incident_row
open_incident_row-SparesResults i db = ground arith

update_incident-SparesResults : (i : Incident) → SparesResults (update_incident i)
unfolding update_incident
update_incident-SparesResults i db = ground arith

append_incident_event-SparesResults : (e : IncidentEvent) → SparesResults (append_incident_event e)
unfolding append_incident_event
append_incident_event-SparesResults e db = ground arith

lists : (id : String) → SparesResults (list_required_locations id)
unfolding list_required_locations
lists id db = refl

gets : (id : String) → SparesResults (get_monitor_health id)
unfolding get_monitor_health
gets id db = refl

gets_active : (id : String) → SparesResults (get_active id)
unfolding get_active
gets_active id db = refl

module _ (rows : List ProbeResultRecord) where
  -- The table of results is this one.
  abbrev pub Holds : Db → Type 0
  Holds db = db.probe_results ≡ rows

  pub Keeps-query : {A : Type 0} (q : Query Db A) → SparesResults q → Keeps Holds (run_query q)
  Keeps-query q s = Keeps-run_query q (λ db h. s db ∙ h)

  module _ (b : Backend) (env : Environment Db) where
    abbrev here : Environment Db
    here = on_sqlite b env

    project_aggregate-Keeps :
        (h : MonitorHealth) (aggregate : HealthState) (at : Time)
        → Keeps Holds (project_aggregate here h aggregate at)
    unfolding project_aggregate
    project_aggregate-Keeps h aggregate at =
        let set : MonitorHealth = record h { state = aggregate; last_transition_at = at } in
        Keeps-if _ (run_query (upsert_monitor_health set)) (pure tt)
          (Keeps-query (upsert_monitor_health set) (upsert_monitor_health-SparesResults set))
          (Keeps-pure tt)

    decide-Keeps :
        (active : Option Incident) (monitor_id : String) (aggregate : HealthState) (at : Time)
        → Keeps Holds (decide here active monitor_id aggregate at)
    unfolding decide
    decide-Keeps active monitor_id aggregate at = record { at = λ w h. ground arith }

    store_decision-Keeps : (d : IncidentDecision) → Keeps Holds (store_decision here d)
    unfolding store_decision
    store_decision-Keeps d = record {
      at = λ w h. ground (
        arith,
        open_incident_row-SparesResults d.incident w.db,
        update_incident-SparesResults d.incident w.db,
      );
    }

    append_event-Keeps : (d : IncidentDecision) (at : Time) → Keeps Holds (append_event here d at)
    unfolding append_event
    append_event-Keeps d at = Keeps-bind (ask env.new_id) _ (Keeps-ask env.new_id) λ id.
        let event : IncidentEvent = record {
          id = id;
          incident_id = d.incident.id;
          previous_state = d.previous_state;
          state = d.incident.state;
          severity = d.incident.severity;
          created_at = at;
        } in
        Keeps-query (append_incident_event event) (append_incident_event-SparesResults event)

    record_decision-Keeps :
        (d : IncidentDecision) (at : Time) → Keeps Holds (record_decision here d at)
    unfolding record_decision
    record_decision-Keeps d at = record {
      at = λ w h. ground (
        arith,
        (Keeps-bind (store_decision here d) (λ _. append_event here d at) (store_decision-Keeps d)
              (λ _. append_event-Keeps d at)).at
            w h,
      );
    }

    pub project_aggregate_and_incident-Keeps :
        (monitor_id : String) (at : Time) (open_unknown : Bool)
        → Keeps Holds (project_aggregate_and_incident here monitor_id at open_unknown)
    unfolding project_aggregate_and_incident
    project_aggregate_and_incident-Keeps monitor_id at open_unknown =
        Keeps-bind (run_query (list_required_locations monitor_id)) _
          (Keeps-query (list_required_locations monitor_id) (lists monitor_id))
          λ required.
            Keeps-bind (run_query (get_monitor_health monitor_id)) _
              (Keeps-query (get_monitor_health monitor_id) (gets monitor_id))
              λ health.
                Keeps-bind (project_aggregate here health (rollup_required required) at) _
                  (project_aggregate-Keeps health (rollup_required required) at)
                  λ _.
                    Keeps-bind (run_query (get_active monitor_id)) _
                      (Keeps-query (get_active monitor_id) (gets_active monitor_id))
                      λ active. Keeps-if _ (pure tt) _ (Keeps-pure tt) (
                        Keeps-bind (decide here active monitor_id (rollup_required required) at) _
                          (decide-Keeps active monitor_id (rollup_required required) at)
                          λ d. record_decision-Keeps d at)
