-- ===== src/Application/Configuration.antt =====
-- internal/application/configuration.go: locations and monitors are created and read.
pub mod Created
use xisnove.Prelude.{
  ℕ, String, Bool, true, false, not, ◌&&◌, ◌||◌, List, [], ◌∷◌, Option, none, some, ◌==◌,
  if◌then◌else◌,
}
use xisnove.Prelude.Text.{is_empty}
use xisnove.Result.{Result, ok, err, validation, invalid_monitor}
use xisnove.Action.{Action, pure, lift, run_query, ask, ◌>>=◌, ◌>>◌}
use xisnove.Domain.Health.{pending, Time, zero_time}
use xisnove.Domain.Agent.{Location, new_location}
use xisnove.Domain.Monitor.{
  Duration, http, tcp, dns, other, HttpProbe, TcpProbe, DnsProbe, ProbeDefinition, Monitor,
  MonitorFields,
}
use xisnove.Domain.Monitor.Build.{Library, new_http_monitor, new_tcp_monitor, new_dns_monitor}
use xisnove.Application.Store.{within_tx}
use xisnove.Application.Environment.{Environment}

pub record CreateMonitorCommand : Type 0 where
  pub name : String
  pub location_id : String
  pub required_location : Bool
  pub interval : Duration
  pub timeout : Duration
  pub failure_threshold : ℕ
  pub recovery_threshold : ℕ
  pub probe : ProbeDefinition

pub record ConfiguredMonitor : Type 0 where
  pub monitor : Monitor
  pub location_id : String
  pub required_location : Bool

abbrev is_nil {ℓ} : {A : Type ℓ} → List A → Bool
is_nil [] = true
is_nil (x ∷ xs) = false

abbrev is_none {ℓ} : {A : Type ℓ} → Option A → Bool
is_none none = true
is_none (some a) = false

abbrev pub http_set : HttpProbe → Bool
http_set p =
    not (is_empty p.method)
    || not (is_empty p.url)
    || not (is_nil p.headers)
    || not (is_nil p.body)
    || not (is_nil p.expected_status)
    || not (is_nil p.body_contains)
    || not (is_nil p.body_does_not_contain)
    || p.follow_redirects
    || not (is_none p.tls)

abbrev pub tcp_set : TcpProbe → Bool
tcp_set p =
    not (is_empty p.host)
    || not (p.port == 0)
    || not (is_nil p.send)
    || not (is_nil p.expect)
    || not (is_none p.tls)

abbrev pub dns_set : DnsProbe → Bool
dns_set p =
    not (is_empty p.resolver)
    || not (is_empty p.name)
    || not (is_empty p.record_type)
    || not (is_nil p.expected_values)

unfoldable pub probe_variant_matches : ProbeDefinition → Bool
probe_variant_matches probe = elim probe.kind [
  | http ↦ http_set probe.http && not (tcp_set probe.tcp) && not (dns_set probe.dns)
  | tcp ↦ tcp_set probe.tcp && not (http_set probe.http) && not (dns_set probe.dns)
  | dns ↦ dns_set probe.dns && not (http_set probe.http) && not (tcp_set probe.tcp)
  | other s ↦ false
]

abbrev pub command_fields : String → CreateMonitorCommand → Time → MonitorFields
command_fields id command now = record {
  id = id;
  name = command.name;
  interval = command.interval;
  timeout = command.timeout;
  failure_threshold = command.failure_threshold;
  recovery_threshold = command.recovery_threshold;
  created_at = now;
}

unfoldable pub new_configured_monitor :
    Library → String → CreateMonitorCommand → Time → Result Monitor
new_configured_monitor library id command now =
    let fields = command_fields id command now in
    if not (probe_variant_matches command.probe)
    then err invalid_monitor
    else elim command.probe.kind [
      | http ↦ new_http_monitor library fields command.probe.http
      | tcp ↦ new_tcp_monitor fields command.probe.tcp
      | dns ↦ new_dns_monitor library fields command.probe.dns
      | other s ↦ err invalid_monitor
    ]

-- An error of the domain becomes a `ValidationError` with one field.
unfoldable pub or_invalid : {A : Type 0} → String → String → Result A → Result A
or_invalid name what (ok a) = ok a
or_invalid name what (err e) = err (validation ((name, what) ∷ []))

module _ {D : Type 0} (env : Environment D) (library : Library) where
  open env.store.repositories use {locations, monitors, health}

  unfoldable pub create_location : String → Action D Location
  create_location name = do
    id ← ask env.new_id
    now ← ask env.now
    location ← lift (or_invalid "name" "must not be empty" (new_location id name now))
    run_query (locations.create location)
    pure location

  -- The transaction of `CreateMonitor`.
  unfoldable pub insert_monitor : Monitor → CreateMonitorCommand → Time → Action D (Unit {0})
  insert_monitor monitor command now = do
    run_query (monitors.create monitor)
    run_query (
        monitors.assign_location (record {
          monitor_id = monitor.id;
          location_id = command.location_id;
          required = command.required_location;
        }))
    run_query (
        health.upsert_location (record {
          monitor_id = monitor.id;
          location_id = command.location_id;
          state = pending;
          consecutive_failures = 0;
          consecutive_successes = 0;
          last_observed_at = zero_time;
          last_transition_at = now;
          stale_at = zero_time;
        }))
    run_query (
        health.upsert_monitor
          (record { monitor_id = monitor.id; state = pending; last_transition_at = now }))

  unfoldable pub create_monitor : CreateMonitorCommand → Action D ConfiguredMonitor
  create_monitor command = do
    run_query (locations.get command.location_id)
    now ← ask env.now
    id ← ask env.new_id
    monitor ← lift (
        or_invalid "monitor" "contains invalid configuration"
          (new_configured_monitor library id command now))
    within_tx env.store (insert_monitor monitor command now)
    pure (record {
      monitor = monitor;
      location_id = command.location_id;
      required_location = command.required_location;
    })

  unfoldable pub get_monitor : String → Action D ConfiguredMonitor
  get_monitor monitor_id = within_tx env.store do
    monitor ← run_query (monitors.get monitor_id)
    assignment ← run_query (monitors.get_assignment monitor_id)
    pure (record {
      monitor = monitor;
      location_id = assignment.location_id;
      required_location = assignment.required;
    })
