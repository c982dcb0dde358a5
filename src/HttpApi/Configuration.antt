-- ===== src/HttpApi/Configuration.antt =====
-- The handlers of locations and monitors in internal/adapters/httpapi/configuration.go.
pub mod Created
use xisnove.Prelude.{ℕ, String, Bool, true, false, ◌||◌, Option, none, some, if◌then◌else◌}
use xisnove.Prelude.Int.{ℤ, pos, leb_ℤ, ltb_ℤ, i32, u16, quot}
use xisnove.Result.{Result, ok, err, and_then}
use xisnove.Action.{World}
use xisnove.Domain.Health.{Time}
use xisnove.Domain.Agent as places
use xisnove.Domain.Monitor as domain
use xisnove.Domain.Monitor.{MonitorKind, probe_of}
use xisnove.Domain.Monitor.Build.{Library}
use xisnove.Application.Configuration as application
use xisnove.Application.Configuration.{CreateMonitorCommand, ConfiguredMonitor}
use xisnove.Application.Environment.{Environment}
use xisnove.Agent.Controlplane.{ProbeDefinition}
use xisnove.HttpApi.Results.{Response, body, body_or, from_error, from_millis}
use xisnove.HttpApi.Requests.{from_seconds, parsed_id, respond, invalid}
use xisnove.HttpApi.Probes.{Encoding, probe_from_api}
use xisnove.HttpApi.Probes.ToApi.{probe_to_api}

pub record Location : Type 0 where
  pub id : String
  pub name : String
  pub created_at : Time

pub record CreateMonitorRequest : Type 0 where
  pub name : String
  pub location_id : String
  pub required_location : Bool
  pub interval_seconds : ℤ
  pub timeout_millis : ℤ
  pub failure_threshold : ℤ
  pub recovery_threshold : ℤ
  pub probe : ProbeDefinition

pub record Monitor : Type 0 where
  pub id : String
  pub kind : MonitorKind
  pub name : String
  pub interval_seconds : ℤ
  pub timeout_millis : ℤ
  pub failure_threshold : ℤ
  pub recovery_threshold : ℤ
  pub location_id : String
  pub required_location : Bool
  pub probe : ProbeDefinition
  pub created_at : Time
  pub updated_at : Time

module _ (parse_uuid : String → Option String) where
  unfoldable pub map_location : places.Location → Result Location
  map_location location =
      and_then (parsed_id parse_uuid location.id)
        λ id. ok (record { id = id; name = location.name; created_at = location.created_at })

  unfoldable pub map_monitor : Encoding → ConfiguredMonitor → Result Monitor
  map_monitor encoding configured =
      let m = configured.monitor in
      and_then (parsed_id parse_uuid m.id) λ id.
        and_then (parsed_id parse_uuid configured.location_id) λ location_id.
          and_then (probe_to_api encoding (probe_of m)) λ probe. ok (record {
            id = id;
            kind = m.kind;
            name = m.name;
            interval_seconds = i32 (quot m.interval (pos 1_000_000_000));
            timeout_millis = i32 (quot m.timeout (pos 1_000_000));
            failure_threshold = pos m.failure_threshold;
            recovery_threshold = pos m.recovery_threshold;
            location_id = location_id;
            required_location = configured.required_location;
            probe = probe;
            created_at = m.created_at;
            updated_at = m.updated_at;
          })

-- A threshold that is no positive uint16.
abbrev pub bad_threshold : ℤ → Bool
bad_threshold n = leb_ℤ n (pos 0) || ltb_ℤ (pos 65_535) n

unfoldable pub to_monitor_command :
    CreateMonitorRequest → domain.ProbeDefinition → CreateMonitorCommand
to_monitor_command request probe = record {
  name = request.name;
  location_id = request.location_id;
  required_location = request.required_location;
  interval = from_seconds request.interval_seconds;
  timeout = from_millis request.timeout_millis;
  failure_threshold = u16 request.failure_threshold;
  recovery_threshold = u16 request.recovery_threshold;
  probe = probe;
}

module _ {D : Type 0} (env : Environment D) (parse_uuid : String → Option String)
    (encoding : Encoding) (library : Library) where
  -- CreateLocation; the body of the request is its name.
  unfoldable pub create_location : Option String → World D → Response Location × World D
  unfolding map_location
  create_location none w = invalid "body" "is required" w
  create_location (some name) w =
      respond (λ location. body_or (map_location parse_uuid location))
        (application.create_location env library name w)

  abbrev create_with :
      CreateMonitorRequest → Result domain.ProbeDefinition → World D → Response Monitor × World D
  create_with request (err e) w = invalid "probe" "contains invalid configuration" w
  create_with request (ok probe) w =
      respond (λ configured. body_or (map_monitor parse_uuid encoding configured))
        (application.create_monitor env library (to_monitor_command request probe) w)

  unfoldable pub create_monitor : Option CreateMonitorRequest → World D → Response Monitor × World D
  create_monitor none w = invalid "body" "is required" w
  create_monitor (some request) w =
      if bad_threshold request.failure_threshold || bad_threshold request.recovery_threshold
      then invalid "monitor" "contains invalid configuration" w
      else create_with request (probe_from_api encoding request.probe) w

  unfoldable pub get_monitor : String → World D → Response Monitor × World D
  unfolding map_monitor
  get_monitor monitor_id w =
      respond (λ configured. body_or (map_monitor parse_uuid encoding configured))
        (application.get_monitor env library monitor_id w)
