-- ===== src/Domain/Monitor/Build.antt =====
-- NewHTTPMonitor, NewTCPMonitor and NewDNSMonitor of internal/domain/monitor.go.
use text.Mathlib.Text.{◌==◌ as str_eq}
use xisnove.Prelude.{
  String, len, Bool, false, not, ◌&&◌, ◌||◌, Option, none, some, all, ltb, length, ◌==◌,
  if◌then◌else◌,
}
use xisnove.Prelude.Int.{pos, ltb_ℤ}
use xisnove.Prelude.Text.{is_empty, trim_space}
use xisnove.Result.{Result, ok, err, invalid_monitor}
use xisnove.Domain.Monitor.{
  http, tcp, dns, StatusRange, HttpProbe, TcpProbe, DnsProbe, Monitor, MonitorFields, new_monitor,
  valid_monitor_fields, valid_tls_expectation, valid_http_assertions, valid_dns_record_type,
  normalize_dns_name, max_probe_payload_bytes, max_dns_expected_values,
}

-- What the program reads of a `*url.URL`.
pub record Url : Type 0 where
  pub scheme : String
  pub host : String

-- The functions of Go's library that the constructors call.
pub record Library : Type 0 where
  -- url.ParseRequestURI; `none` is its error
  pub parse_request_uri : String → Option Url
  -- strings.ToUpper
  pub to_upper : String → String

abbrev pub valid_url : Option Url → Bool
valid_url none = false
valid_url (some u) = (str_eq u.scheme "http" || str_eq u.scheme "https") && not (is_empty u.host)

abbrev pub valid_status : StatusRange → Bool
valid_status status =
    not (ltb_ℤ status.min (pos 100))
    && not (ltb_ℤ (pos 599) status.max)
    && not (ltb_ℤ status.max status.min)

-- p.HTTP.Method, "GET" by default
abbrev pub with_method : HttpProbe → HttpProbe
with_method p = if is_empty p.method then record p { method = "GET" } else p

-- The tests of `NewHTTPMonitor`; each of them returns `ErrInvalidMonitor`.
unfoldable pub http_refused : Library → MonitorFields → HttpProbe → Bool
http_refused library p probe =
    not (valid_url (library.parse_request_uri probe.url))
    || not (valid_monitor_fields p)
    || ltb max_probe_payload_bytes (length probe.body)
    || not (valid_tls_expectation probe.tls)
    || not (all valid_status probe.expected_status)
    || not (valid_http_assertions (with_method probe))

unfoldable pub new_http_monitor : Library → MonitorFields → HttpProbe → Result Monitor
new_http_monitor library p probe =
    if http_refused library p probe
    then err invalid_monitor
    else ok (record (new_monitor p http) { http = with_method probe })

-- The test of `NewTCPMonitor`, on the probe with its host normalised.
unfoldable pub tcp_refused : MonitorFields → TcpProbe → Bool
tcp_refused p probe =
    not (valid_monitor_fields p)
    || is_empty probe.host
    || probe.port == 0
    || ltb max_probe_payload_bytes (length probe.send)
    || ltb max_probe_payload_bytes (length probe.expect)
    || not (valid_tls_expectation probe.tls)

unfoldable pub new_tcp_monitor : MonitorFields → TcpProbe → Result Monitor
new_tcp_monitor p raw =
    let probe = record raw { host = normalize_dns_name raw.host } in
    if tcp_refused p probe
    then err invalid_monitor
    else ok (record (new_monitor p tcp) { tcp = probe })

-- The normalised probe of `NewDNSMonitor`.
abbrev pub normalize_dns : Library → DnsProbe → DnsProbe
normalize_dns library probe = record probe {
  name = normalize_dns_name probe.name;
  resolver = trim_space probe.resolver;
  record_type = library.to_upper (trim_space probe.record_type);
}

-- The tests of `NewDNSMonitor`, on the normalised probe.
unfoldable pub dns_refused : MonitorFields → DnsProbe → Bool
dns_refused p probe =
    not (valid_monitor_fields p)
    || is_empty probe.name
    || ltb 253 (len probe.name)
    || not (valid_dns_record_type probe.record_type)
    || ltb max_dns_expected_values (length probe.expected_values)
    || not (all (λ v. not (is_empty (trim_space v))) probe.expected_values)

unfoldable pub new_dns_monitor : Library → MonitorFields → DnsProbe → Result Monitor
new_dns_monitor library p raw =
    let probe = normalize_dns library raw in
    if dns_refused p probe
    then err invalid_monitor
    else ok (record (new_monitor p dns) { dns = probe })
