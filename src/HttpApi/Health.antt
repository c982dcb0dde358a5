-- ===== src/HttpApi/Health.antt =====
-- internal/adapters/httpapi/health.go.
use xisnove.Prelude.{String, List, [], ◌∷◌, Option, none, some}
use xisnove.Prelude.Int.{ℤ, pos}
use xisnove.Result.{Result, ok, and_then}
use xisnove.Action.{World}
use xisnove.Domain.Health as domain
use xisnove.Domain.Health.{HealthState, Time}
use xisnove.Domain.Incident as incidents
use xisnove.Domain.Incident.{IncidentSeverity}
use xisnove.Application.Results.Views as application
use xisnove.Application.Results.Views.{MonitorHealthView}
use xisnove.Application.Environment.{Environment}
use xisnove.HttpApi.Results.{Response, body_or}
use xisnove.HttpApi.Requests.{parsed_id, respond}

pub record LocationHealth : Type 0 where
  pub location_id : String
  pub state : HealthState
  pub consecutive_failures : ℤ
  pub consecutive_successes : ℤ
  pub last_observed_at : Time

pub record MonitorHealth : Type 0 where
  pub monitor_id : String
  pub state : HealthState
  pub last_transition_at : Time
  pub locations : List LocationHealth

-- An incident of the API is open: the handler returns active ones alone.
pub record Incident : Type 0 where
  pub id : String
  pub monitor_id : String
  pub severity : IncidentSeverity
  pub opened_at : Time
  pub last_transition_at : Time

module _ (parse_uuid : String → Option String) where
  unfoldable pub map_locations : List domain.LocationHealth → Result (List LocationHealth)
  map_locations [] = ok []
  map_locations (location ∷ rest) =
      let others = map_locations rest in
      and_then (parsed_id parse_uuid location.location_id) λ id. and_then others λ mapped. ok (
        record {
          location_id = id;
          state = location.state;
          consecutive_failures = pos location.consecutive_failures;
          consecutive_successes = pos location.consecutive_successes;
          last_observed_at = location.last_observed_at;
        }
        ∷ mapped)

  unfoldable pub map_health : MonitorHealthView → Result MonitorHealth
  unfolding map_locations
  map_health view = and_then (parsed_id parse_uuid view.monitor.monitor_id) λ id.
      and_then (map_locations view.locations) λ locations. ok (record {
        monitor_id = id;
        state = view.monitor.state;
        last_transition_at = view.monitor.last_transition_at;
        locations = locations;
      })

  -- `none` for the status 204
  unfoldable pub map_incident : Option incidents.Incident → Result (Option Incident)
  map_incident none = ok none
  map_incident (some incident) = and_then (parsed_id parse_uuid incident.id) λ id.
      and_then (parsed_id parse_uuid incident.monitor_id) λ monitor_id. ok (
        some (record {
          id = id;
          monitor_id = monitor_id;
          severity = incident.severity;
          opened_at = incident.opened_at;
          last_transition_at = incident.last_transition_at;
        }))

  module _ {D : Type 0} (env : Environment D) where
    unfoldable pub get_monitor_health : String → World D → Response MonitorHealth × World D
    unfolding map_health
    get_monitor_health monitor_id w =
        respond (λ view. body_or (map_health view))
          (application.get_monitor_health env monitor_id w)

    unfoldable pub get_active_monitor_incident :
        String → World D → Response (Option Incident) × World D
    unfolding map_incident
    get_active_monitor_incident monitor_id w =
        respond (λ incident. body_or (map_incident incident))
          (application.get_active_incident env monitor_id w)
