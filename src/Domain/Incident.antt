-- ===== src/Domain/Incident.antt =====
-- internal/domain/incident.go: when an Incident opens, changes and recovers.
pub mod Lifecycle
pub mod Cases
use text.Mathlib.Text.{◌==◌ as str_eq}
use xisnove.Prelude.{String, Bool, true, false, not, Option, none, some, if◌then◌else◌, ◌&&◌, ◌||◌}
use xisnove.Domain.Health.{HealthState, up, down, degraded, unknown, state_eq, Time, zero_time}

pub data IncidentAction : Type 0 where
  no_action open_incident change recover : IncidentAction

-- A string type, as `HealthState` is.
pub data IncidentSeverity : Type 0 where
  warning critical : IncidentSeverity
  other : String → IncidentSeverity

abbrev pub severity_eq : IncidentSeverity → IncidentSeverity → Bool
severity_eq warning warning = true
severity_eq critical critical = true
severity_eq (other a) (other b) = str_eq a b
severity_eq _ _ = false

pub record Incident : Type 0 where
  pub id : String
  pub monitor_id : String
  pub state : HealthState
  pub severity : IncidentSeverity
  pub opened_at : Time
  pub last_transition_at : Time
  pub recovered_at : Option Time

pub record IncidentEvent : Type 0 where
  pub id : String
  pub incident_id : String
  pub previous_state : HealthState
  pub state : HealthState
  pub severity : IncidentSeverity
  pub created_at : Time

pub record IncidentDecision : Type 0 where
  pub action : IncidentAction
  pub incident : Incident
  pub previous_state : HealthState

abbrev pub empty_state : HealthState
empty_state = HealthState.other ""

-- Go's zero value `Incident{}`
abbrev pub zero_incident : Incident
zero_incident = record {
  id = "";
  monitor_id = "";
  state = empty_state;
  severity = other "";
  opened_at = zero_time;
  last_transition_at = zero_time;
  recovered_at = none;
}

unfoldable pub severity_for : HealthState → IncidentSeverity × Bool
severity_for down = (critical, true)
severity_for degraded = (warning, true)
severity_for unknown = (warning, true)
severity_for _ = (other "", false)

-- The branch for `active == nil`; `new_id` is what `newID()` returns if it is called.
decide_inactive : String → HealthState → Time → String → IncidentSeverity × Bool → IncidentDecision
decide_inactive monitor_id health at new_id (severity, unhealthy) =
    if not unhealthy
    then record { action = no_action; incident = zero_incident; previous_state = empty_state }
    else record {
      action = open_incident;
      incident = record {
        id = new_id;
        monitor_id = monitor_id;
        state = health;
        severity = severity;
        opened_at = at;
        last_transition_at = at;
        recovered_at = none;
      };
      previous_state = empty_state;
    }

decide_active : Incident → HealthState → Time → IncidentSeverity × Bool → IncidentDecision
decide_active active health at (severity, unhealthy) =
    if state_eq health up
    then record {
      action = recover;
      incident = record active { state = up; last_transition_at = at; recovered_at = some at };
      previous_state = active.state;
    }
    else if not unhealthy || state_eq active.state health && severity_eq active.severity severity
    then record { action = no_action; incident = active; previous_state = empty_state }
    else record {
      action = change;
      incident = record active { state = health; severity = severity; last_transition_at = at };
      previous_state = active.state;
    }

unfoldable pub decide_incident :
    Option Incident → String → HealthState → Time → String → IncidentDecision
unfolding severity_for decide_inactive decide_active
decide_incident none monitor_id health at new_id =
    decide_inactive monitor_id health at new_id (severity_for health)
decide_incident (some active) monitor_id health at new_id =
    decide_active active health at (severity_for health)
