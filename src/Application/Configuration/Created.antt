-- ===== src/Application/Configuration/Created.antt =====
-- What CreateMonitor of internal/application/configuration.go returns.
use xisnove.Prelude.{String, ◌≡◌, refl, arith}
use xisnove.Prelude.Text.{trim_space}
use xisnove.Result.{ok}
use xisnove.Action.{run_query, ask}
use xisnove.Action.Ensures.{Ensures, Ensures-bind, Ensures-pure, Ensures-lift}
use xisnove.Domain.Health.{Time}
use xisnove.Domain.Monitor.{Monitor, new_monitor}
use xisnove.Domain.Monitor.Build.{Library, new_http_monitor, new_tcp_monitor, new_dns_monitor}
use xisnove.Application.Store.{within_tx}
use xisnove.Application.Environment.{Environment}
use xisnove.Application.Configuration.{
  CreateMonitorCommand, ConfiguredMonitor, or_invalid, new_configured_monitor, insert_monitor,
  create_monitor,
}

-- A monitor with the fields that were asked for.
pub record HasFields (command : CreateMonitorCommand) (m : Monitor) : Type 0 where
  pub name : m.name ≡ trim_space command.name
  pub interval : m.interval ≡ command.interval
  pub timeout : m.timeout ≡ command.timeout
  pub failures : m.failure_threshold ≡ command.failure_threshold
  pub recoveries : m.recovery_threshold ≡ command.recovery_threshold

pub record Echoes (command : CreateMonitorCommand) (c : ConfiguredMonitor) : Type 0 where
  pub fields : HasFields command c.monitor
  pub location : c.location_id ≡ command.location_id
  pub required : c.required_location ≡ command.required_location

new_configured_monitor-HasFields :
    (library : Library) (id : String) (command : CreateMonitorCommand) (now : Time) (m : Monitor)
    → or_invalid "monitor" "contains invalid configuration"
        (new_configured_monitor library id command now)
      ≡ ok m
    → HasFields command m
unfolding new_configured_monitor or_invalid new_http_monitor new_tcp_monitor new_dns_monitor
    new_monitor
new_configured_monitor-HasFields library id command now m e = ground (arith, e)

module _ {D : Type 0} (env : Environment D) (library : Library) where
  open env.store.repositories use {locations}

  pub create_monitor-Echoes :
      (command : CreateMonitorCommand)
      → Ensures (λ c d. Echoes command c) (create_monitor env library command)
  unfolding create_monitor
  create_monitor-Echoes command =
      Ensures-bind (run_query (locations.get command.location_id)) _ λ found.
        Ensures-bind (ask env.now) _ λ now. Ensures-bind (ask env.new_id) _ λ id.
          Ensures-lift
            (or_invalid "monitor" "contains invalid configuration"
              (new_configured_monitor library id command now))
            _
            λ monitor made.
              Ensures-bind (within_tx env.store (insert_monitor env library monitor command now)) _
                λ u. Ensures-pure _ λ d. record {
                  fields = new_configured_monitor-HasFields library id command now monitor made;
                  location = refl;
                  required = refl;
                }
