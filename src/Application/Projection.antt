-- ===== src/Application/Projection.antt =====
-- internal/application/projection.go: a monitor's health from its required locations, and the
-- incident that follows from it.
use xisnove.Prelude.{suc, String, Bool, true, false, not, ◌&&◌, Option, none, some, if◌then◌else◌}
use xisnove.Result.{ok}
use xisnove.Action.{Action, pure, run_query, ask, ◌>>=◌, ◌>>◌}
use xisnove.Domain.Health.{HealthState, unknown, state_eq, Time, MonitorHealth, rollup_required}
use xisnove.Domain.Incident.{
  no_action, open_incident, change, recover, Incident, IncidentDecision, decide_incident,
}
use xisnove.Application.Environment.{Environment}

abbrev pub is_none {ℓ} : {A : Type ℓ} → Option A → Bool
is_none none = true
is_none (some a) = false

module _ {D : Type 0} (env : Environment D) where
  open env.store.repositories use {health, incidents}

  -- The `if aggregate != monitorHealth.State` block.
  unfoldable pub project_aggregate : MonitorHealth → HealthState → Time → Action D (Unit {0})
  project_aggregate monitor_health aggregate at =
      if not (state_eq aggregate monitor_health.state)
      then run_query (
          health.upsert_monitor
            (record monitor_health { state = aggregate; last_transition_at = at }))
      else pure tt

  -- `DecideIncident`, which draws an identifier only for an incident that it opens.
  unfoldable pub decide : Option Incident → String → HealthState → Time → Action D IncidentDecision
  decide active monitor_id aggregate at w =
      let decision = decide_incident active monitor_id aggregate at (env.new_id w.asked) in
      elim decision.action [
        | open_incident ↦ (ok decision, record w { asked = suc w.asked })
        | _ ↦ (ok decision, w)
      ]

  -- The `switch` on the action.
  unfoldable pub store_decision : IncidentDecision → Action D (Unit {0})
  store_decision decision = elim decision.action [
    | open_incident ↦ run_query (incidents.open_new decision.incident)
    | change ↦ run_query (incidents.update decision.incident)
    | recover ↦ run_query (incidents.update decision.incident)
    | no_action ↦ pure tt
  ]

  unfoldable pub append_event : IncidentDecision → Time → Action D (Unit {0})
  append_event decision at = do
    id ← ask env.new_id
    run_query (
        incidents.append_event (record {
          id = id;
          incident_id = decision.incident.id;
          previous_state = decision.previous_state;
          state = decision.incident.state;
          severity = decision.incident.severity;
          created_at = at;
        }))

  unfoldable pub record_decision : IncidentDecision → Time → Action D (Unit {0})
  record_decision decision at = elim decision.action [
    | no_action ↦ pure tt
    | _ ↦ store_decision decision >> append_event decision at
  ]

  unfoldable pub project_aggregate_and_incident : String → Time → Bool → Action D (Unit {0})
  project_aggregate_and_incident monitor_id at open_unknown = do
    required ← run_query (health.list_required_locations monitor_id)
    let aggregate = rollup_required required
    monitor_health ← run_query (health.get_monitor monitor_id)
    project_aggregate monitor_health aggregate at
    active ← run_query (incidents.get_active monitor_id)
    if is_none active && state_eq aggregate unknown && not open_unknown
        then pure tt
        else do decision ← decide active monitor_id aggregate at; record_decision decision at
