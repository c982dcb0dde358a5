-- ===== src/Application/Results/Views.antt =====
-- HealthService of internal/application/results.go: the health and the active incident of a monitor.
use xisnove.Prelude.{String, List, Option}
use xisnove.Action.{Action, pure, run_query, ◌>>=◌}
use xisnove.Domain.Health.{LocationHealth, MonitorHealth}
use xisnove.Domain.Incident.{Incident}
use xisnove.Application.Environment.{Environment}

pub record MonitorHealthView : Type 0 where
  pub monitor : MonitorHealth
  pub locations : List LocationHealth

module _ {D : Type 0} (env : Environment D) where
  open env.store.repositories use {health, incidents}

  unfoldable pub get_monitor_health : String → Action D MonitorHealthView
  get_monitor_health monitor_id = do
    monitor ← run_query (health.get_monitor monitor_id)
    locations ← run_query (health.list_required_locations monitor_id)
    pure (record { monitor = monitor; locations = locations })

  unfoldable pub get_active_incident : String → Action D (Option Incident)
  get_active_incident monitor_id = run_query (incidents.get_active monitor_id)
