-- ===== src/Tests/Monitors.antt =====
-- The theorems on domain/monitor.go and on the scheduler's arithmetic at concrete inputs.
use xisnove.Prelude.{◌≡◌, refl, true, some, arith}
use xisnove.Prelude.Int.{pos, ◌+ℤ◌, ◌-ℤ◌, ◌*ℤ◌, ◌≤ℤ◌, ◌<ℤ◌, IsInt64, quot, saturate, i64}
use xisnove.Prelude.Text.{trim_space, trim_dot}
use xisnove.Result.{ok, err, invalid_monitor}
use xisnove.Domain.Monitor.{
  http, tcp, dns, HttpProbe, TcpProbe, DnsProbe, no_http, no_tcp, no_dns, Monitor, MonitorFields,
  new_monitor, valid_monitor_fields, valid_tls_expectation, valid_http_assertions,
  valid_dns_record_type, normalize_dns_name,
}
use xisnove.Domain.Monitor.Build.{
  Library, http_refused, new_http_monitor, tcp_refused, new_tcp_monitor, dns_refused,
  new_dns_monitor,
}
use xisnove.Domain.Monitor.Reload.{monitor_fields}
use xisnove.Sqlite.Tables.{milliseconds}
use xisnove.Sqlite.Monitors.{create_monitor, get_monitor, monitor_row}
use xisnove.Sqlite.Monitors.Reload.{FitsColumns, dotted, get_monitor-http, new_tcp_monitor_lost}
use xisnove.Tests.Store.{db}
use xisnove.Application.Schedule.{bounded_schedule, skipped_intervals, bounded_schedule_due}

abbrev pub library : Library
library = record {
  parse_request_uri = λ s. some (record { scheme = "https"; host = s });
  to_upper = λ s. s;
}

abbrev fields : MonitorFields
fields = record {
  id = "m";
  name = " site ";
  interval = pos 60_000_000_000;
  timeout = pos 5_000_000_000;
  failure_threshold = 2;
  recovery_threshold = 1;
  created_at = pos 7;
}

abbrev site : Monitor
site = record {
  id = "m";
  name = "site";
  kind = http;
  interval = pos 60_000_000_000;
  timeout = pos 5_000_000_000;
  failure_threshold = 2;
  recovery_threshold = 1;
  http = no_http;
  tcp = no_tcp;
  dns = no_dns;
  enabled = true;
  next_run_at = pos 7;
  created_at = pos 7;
  updated_at = pos 7;
}

abbrev http_probe : HttpProbe
http_probe = record no_http { url = "https://example.org" }

abbrev http_site : Monitor
http_site = record site { http = record http_probe { method = "GET" } }

made_http : new_http_monitor library fields http_probe ≡ ok http_site
unfolding new_http_monitor http_refused new_monitor valid_monitor_fields valid_tls_expectation
    valid_http_assertions trim_space
made_http = refl

-- The whole milliseconds of the site.
fields-FitsColumns : FitsColumns (monitor_fields http_site)
fields-FitsColumns = record {
  interval = (60000, refl, omega arith);
  timeout = (5000, refl, omega arith);
  failures = omega arith;
  recoveries = omega arith;
}

created_http : (create_monitor http_site db).0 ≡ ok tt
unfolding create_monitor monitor_row milliseconds quot i64 ◌*ℤ◌
created_http = refl

get_monitor-http_example :
    (get_monitor library "m" (create_monitor http_site db).1).0 ≡ ok http_site
get_monitor-http_example =
    get_monitor-http library fields http_probe http_site db made_http fields-FitsColumns
      created_http

abbrev tcp_probe : TcpProbe
tcp_probe = record no_tcp { host = "db.example.org."; port = 5432 }

abbrev tcp_site : Monitor
tcp_site = record site { kind = tcp; tcp = record tcp_probe { host = "db.example.org" } }

made_tcp : new_tcp_monitor fields tcp_probe ≡ ok tcp_site
unfolding new_tcp_monitor tcp_refused new_monitor valid_monitor_fields valid_tls_expectation
    normalize_dns_name trim_space trim_dot
made_tcp = refl

host_stays : normalize_dns_name "db.example.org" ≡ "db.example.org"
unfolding normalize_dns_name trim_space trim_dot
host_stays = refl

created_dotted : (create_monitor (dotted fields tcp_probe) db).0 ≡ ok tt
unfolding create_monitor monitor_row milliseconds quot i64 ◌*ℤ◌ new_monitor trim_space
created_dotted = refl

new_tcp_monitor_lost_example :
    (new_tcp_monitor fields (record tcp_probe { host = ".." }) ≡ ok (dotted fields tcp_probe))
    × ((get_monitor library
          (dotted fields tcp_probe).id
          (create_monitor (dotted fields tcp_probe) db).1).0
        ≡ err invalid_monitor)
new_tcp_monitor_lost_example =
    new_tcp_monitor_lost library fields tcp_probe tcp_site db made_tcp (omega arith) (omega arith)
      created_dotted

abbrev dns_probe : DnsProbe
dns_probe = record no_dns { name = "example.org."; record_type = "MX" }

abbrev dns_site : Monitor
dns_site = record site { kind = dns; dns = record dns_probe { name = "example.org" } }

made_dns : new_dns_monitor library fields dns_probe ≡ ok dns_site
unfolding new_dns_monitor dns_refused new_monitor valid_monitor_fields valid_dns_record_type
    normalize_dns_name trim_space trim_dot
made_dns = refl

name_stays : normalize_dns_name "example.org" ≡ "example.org"
unfolding normalize_dns_name trim_space trim_dot
name_stays = refl

type_stays : trim_space "MX" ≡ "MX"
unfolding trim_space
type_stays = refl

scheduled : bounded_schedule (pos 100) (pos 60) (pos 250) ≡ ok (pos 220, pos 280, pos 2)
unfolding bounded_schedule skipped_intervals ◌+ℤ◌ quot i64 saturate ◌*ℤ◌ ◌-ℤ◌
scheduled = refl

in_range : IsInt64 (pos 250 -ℤ pos 100)
unfolding ◌-ℤ◌
in_range = omega arith

bounded_schedule_due_example :
    (pos 220 ≡ pos 100 +ℤ pos 2 *ℤ pos 60)
    × (pos 220 ≤ℤ pos 250)
    × (pos 250 <ℤ pos 280)
    × (pos 280 ≡ pos 220 +ℤ pos 60)
    × (pos 0 ≤ℤ pos 2)
bounded_schedule_due_example =
    bounded_schedule_due (pos 100) (pos 60) (pos 250) (pos 220) (pos 280) (pos 2) scheduled
      (omega arith) in_range
