-- ===== src/Tests/Api.antt =====
-- The theorems on the HTTP API at concrete inputs.
use mathlib.Core.Path.{subst}
use xisnove.HttpApi.Probes.Numbers.{FitsDuration}
use xisnove.Prelude.{◌≡◌, refl, true, String, [], ◌∷◌, Option, none, some, arith}
use xisnove.Prelude.Int.{pos}
use xisnove.Result.{ok}
use xisnove.Action.{World}
use xisnove.Domain.Monitor as domain
use xisnove.Application.Leasing as application
use xisnove.Agent.Controlplane.{ProbeDefinition, TcpProbeDefinition, ProbeWork}
use xisnove.HttpApi.Results.{body}
use xisnove.HttpApi.Probes.{
  Encoding, probe_from_api, validate_probe_fields, tcp_from_api, tls_from_seconds, tls_to_seconds,
}
use xisnove.HttpApi.Probes.ToApi.{probe_to_api, tcp_to_api}
use xisnove.HttpApi.Probes.Faithful.{IsEncoding, IsInRange}
use xisnove.HttpApi.Configuration.{CreateMonitorRequest, Monitor, create_monitor}
use xisnove.HttpApi.Configuration.Created.{IsRequest, IsAsked, create_monitor-IsAsked}
use xisnove.HttpApi.Work.Sent.{IsSent, work_answer-IsSent}
use xisnove.Tests.Services.{backend, env}
use xisnove.Services.{on_sqlite}
use xisnove.Tests.Store.{db}
use xisnove.Prelude.Int.{u16, i32, i64, ◌*ℤ◌, quot}
use xisnove.Prelude.Text.{trim_space, trim_dot}
use xisnove.Domain.Monitor.{
  valid_monitor_fields, valid_tls_expectation, normalize_dns_name, new_monitor, probe_of,
}
use xisnove.Domain.Monitor.Build.{new_tcp_monitor, tcp_refused}
use xisnove.Application.Configuration.{
  create_monitor as configure, or_invalid, new_configured_monitor, probe_variant_matches,
  insert_monitor,
}
use xisnove.Application.Store.{within_tx}
use xisnove.Sqlite.Tables.{find, milliseconds}
use xisnove.Sqlite.Monitors.{
  create_monitor as store_monitor, get_location, monitor_row, assign_location,
}
use xisnove.Sqlite.Health.{upsert_location_health, upsert_monitor_health}
use xisnove.HttpApi.Configuration.{to_monitor_command, map_monitor}
use xisnove.HttpApi.Work.{work_answer, map_probe_work}
use xisnove.HttpApi.Results.{from_millis}
use xisnove.Sqlite.Tables.{Db}

abbrev encoding : Encoding
encoding = record {
  fields_of = λ p. some ("kind" ∷ []);
  from_http = λ v.
      some (record { discriminator = some "http"; as_http = some v; as_tcp = none; as_dns = none });
  from_tcp = λ v.
      some (record { discriminator = some "tcp"; as_http = none; as_tcp = some v; as_dns = none });
  from_dns = λ v.
      some (record { discriminator = some "dns"; as_http = none; as_tcp = none; as_dns = some v });
  to_lower = λ s. s;
}

encoding-IsEncoding : IsEncoding encoding
encoding-IsEncoding = record {
  http = λ v q e. (ground (arith, e), ground (arith, e));
  tcp = λ v q e. (ground (arith, e), ground (arith, e));
  dns = λ v q e. (ground (arith, e), ground (arith, e));
}

abbrev database_check : TcpProbeDefinition
database_check = record {
  host = "db";
  port = pos 5432;
  send = [];
  expect = 1 ∷ [];
  tls_minimum_remaining_seconds = some (pos 60);
}

abbrev submitted : ProbeDefinition
submitted = record {
  discriminator = some "tcp";
  as_http = none;
  as_tcp = some database_check;
  as_dns = none;
}

tcp_fits :
    (v : TcpProbeDefinition)
    → some database_check ≡ some v
    → FitsDuration v.tls_minimum_remaining_seconds
tcp_fits v e =
    subst (λ (x : TcpProbeDefinition). FitsDuration x.tls_minimum_remaining_seconds)
      (some_injective e) (omega arith, omega arith)
  where
    some_injective : {x y : TcpProbeDefinition} → some x ≡ some y → x ≡ y
    some_injective h = cc

submitted-IsInRange : IsInRange submitted
submitted-IsInRange = record { http = λ v e. absurd (ground (arith, e)); tcp = tcp_fits }

abbrev request : CreateMonitorRequest
request = record {
  name = "site";
  location_id = "l";
  required_location = true;
  interval_seconds = pos 60;
  timeout_millis = pos 5000;
  failure_threshold = pos 2;
  recovery_threshold = pos 1;
  probe = submitted;
}

request-IsRequest : IsRequest request
request-IsRequest = record {
  interval = record { above = omega arith; below = omega arith };
  timeout = record { above = omega arith; below = omega arith };
}

abbrev parse_uuid : String → Option String
parse_uuid s = some s

abbrev made : Monitor
made = record {
  id = "k";
  kind = domain.tcp;
  name = "site";
  interval_seconds = pos 60;
  timeout_millis = pos 5000;
  failure_threshold = pos 2;
  recovery_threshold = pos 1;
  location_id = "l";
  required_location = true;
  probe = submitted;
  created_at = pos 60;
  updated_at = pos 60;
}

abbrev begun : World Db
begun = record {
  db = record db { locations = record { id = "l"; name = "site"; created_at = pos 1 } ∷ [] };
  asked = 5;
}

answered :
    (create_monitor
      (on_sqlite backend env)
      parse_uuid
      encoding
      backend.library
      (some request)
      begun).0
    ≡ body made
unfolding create_monitor probe_from_api validate_probe_fields tcp_from_api tls_from_seconds u16 i64
    ◌*ℤ◌ to_monitor_command configure get_location find or_invalid new_configured_monitor
    probe_variant_matches new_tcp_monitor tcp_refused valid_monitor_fields valid_tls_expectation
    normalize_dns_name new_monitor trim_space within_tx insert_monitor store_monitor monitor_row
    milliseconds quot assign_location upsert_location_health upsert_monitor_health map_monitor
    probe_of probe_to_api tcp_to_api tls_to_seconds i32 trim_dot
answered = refl

create_monitor-IsAsked_example : IsAsked parse_uuid request made
create_monitor-IsAsked_example =
    create_monitor-IsAsked (on_sqlite backend env) parse_uuid encoding backend.library request made
      begun request-IsRequest answered

abbrev probed : domain.ProbeDefinition
probed = record {
  kind = domain.tcp;
  http = domain.no_http;
  tcp = record {
    host = "db";
    port = 5432;
    send = [];
    expect = 1 ∷ [];
    tls = some (record { minimum_remaining = pos 60_000_000_000 });
  };
  dns = domain.no_dns;
}

abbrev work : application.ProbeWork
work = record {
  run_id = "r";
  monitor_id = "m";
  scheduled_for = pos 60;
  lease_token = "t";
  timeout = pos 5_000_000_000;
  probe = probed;
}

abbrev leased : ProbeWork
leased = record {
  run_id = "r";
  monitor_id = "m";
  lease_token = "t";
  scheduled_for = pos 60;
  timeout_millis = pos 5000;
  probe = submitted;
}

accepts : probe_from_api encoding submitted ≡ ok probed
unfolding probe_from_api validate_probe_fields tcp_from_api tls_from_seconds u16 i64 ◌*ℤ◌
accepts = refl

sends : work_answer parse_uuid encoding (ok work) ≡ body (some leased)
unfolding work_answer map_probe_work probe_to_api tcp_to_api tls_to_seconds i32 quot
sends = refl

in_milliseconds : pos 5_000_000_000 ≡ from_millis (pos 5000)
unfolding i64 ◌*ℤ◌
in_milliseconds = refl

work_answer-IsSent_example : IsSent work submitted (pos 5000) leased
work_answer-IsSent_example =
    work_answer-IsSent parse_uuid encoding work submitted (pos 5000) leased encoding-IsEncoding
      submitted-IsInRange (record { above = omega arith; below = omega arith }) accepts
      in_milliseconds sends
