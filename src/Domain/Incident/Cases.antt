-- ===== src/Domain/Incident/Cases.antt =====
-- The four outcomes of `DecideIncident` of internal/domain/incident.go.
use xisnove.Prelude.{
  ◌≡◌, refl, String, Bool, true, false, Option, none, some, Bool-cases, inl, inr, not, ◌&&◌, ◌||◌,
}
use xisnove.Domain.Health.{HealthState, Time}
use xisnove.Domain.Incident.{
  no_action, open_incident, change, recover, Incident, IncidentSeverity, IncidentDecision,
  severity_for, decide_incident, decide_inactive, decide_active, state_eq, severity_eq, up,
}

-- What a decision about the active incident of a monitor asks of the store.
pub data IsDecision (active : Option Incident) (m : String) (at : Time) (d : IncidentDecision)
    : Type 0 where
  rests : d.action ≡ no_action → IsDecision active m at d
  opens :
      active ≡ none
      → d.action ≡ open_incident
      → d.incident.monitor_id ≡ m
      → d.incident.recovered_at ≡ none
      → IsDecision active m at d
  changes :
      (i : Incident) (state : HealthState) (severity : IncidentSeverity)
      → active ≡ some i
      → d.action ≡ change
      → d.incident ≡ record i { state = state; severity = severity; last_transition_at = at }
      → IsDecision active m at d
  recovers :
      (i : Incident)
      → active ≡ some i
      → d.action ≡ recover
      → d.incident.id ≡ i.id
      → d.incident.recovered_at ≡ some at
      → IsDecision active m at d

inactive_cases :
    (m : String) (health : HealthState) (at : Time) (id : String) (s : IncidentSeverity × Bool)
    → IsDecision none m at (decide_inactive m health at id s)
unfolding decide_inactive
inactive_cases m health at id (severity, true) = opens refl refl refl refl
inactive_cases m health at id (severity, false) = rests refl

active_cases :
    (i : Incident) (m : String) (health : HealthState) (at : Time) (s : IncidentSeverity × Bool)
    → IsDecision (some i) m at (decide_active i health at s)
unfolding decide_active
active_cases i m health at (severity, unhealthy) = elim (Bool-cases (state_eq health up)) [
  | inl e ↦ rw e (recovers i refl refl refl refl)
  | inr n ↦
      elim (Bool-cases
        (not unhealthy || state_eq i.state health && severity_eq i.severity severity)) [
          | inl e ↦ rw (n, e) (rests refl)
          | inr k ↦ rw (n, k) (changes i health severity refl refl refl)
        ]
]

pub decide_incident-IsDecision :
    (active : Option Incident) (m : String) (health : HealthState) (at : Time) (id : String)
    → IsDecision active m at (decide_incident active m health at id)
unfolding decide_incident
decide_incident-IsDecision none m health at id = inactive_cases m health at id (severity_for health)
decide_incident-IsDecision (some i) m health at id =
    active_cases i m health at (severity_for health)
