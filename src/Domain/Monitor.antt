-- ===== src/Domain/Monitor.antt =====
-- internal/domain/monitor.go: what a Monitor is made of and when it is accepted. A duration is the
-- int64 number of its nanoseconds, a []byte the list of its bytes, a map the list of its entries.
-- `url.ParseRequestURI`, `http.MethodGet` and `strings.ToUpper` belong to Go's library: the first
-- and the last are parameters of the constructors that use them.
pub mod Build
pub mod Reload
use text.Mathlib.Text.{◌==◌ as str_eq}
use xisnove.Prelude.{
  ℕ, String, len, Bool, true, false, not, ◌&&◌, ◌||◌, List, [], ◌∷◌, Option, none, some, all, any,
  ltb, leb, length, ◌==◌, if◌then◌else◌,
}
use xisnove.Prelude.Int.{ℤ, pos, ltb_ℤ}
use xisnove.Prelude.Text.{is_empty, trim_space, trim_dot}
use xisnove.Domain.Health.{Time, zero_time}

abbrev pub Duration : Type 0
Duration = ℤ

-- A string type, as `HealthState` is.
pub data MonitorKind : Type 0 where
  http tcp dns : MonitorKind
  other : String → MonitorKind

abbrev pub kind_eq : MonitorKind → MonitorKind → Bool
kind_eq http http = true
kind_eq tcp tcp = true
kind_eq dns dns = true
kind_eq (other a) (other b) = str_eq a b
kind_eq _ _ = false

abbrev pub max_probe_payload_bytes : ℕ
max_probe_payload_bytes = 4096

abbrev pub max_dns_expected_values : ℕ
max_dns_expected_values = 20

pub record StatusRange : Type 0 where
  pub min : ℤ
  pub max : ℤ

pub record TlsExpectation : Type 0 where
  pub minimum_remaining : Duration

pub record HttpProbe : Type 0 where
  pub method : String
  pub url : String
  pub headers : List (String × String)
  pub body : List ℕ
  pub expected_status : List StatusRange
  pub body_contains : List String
  pub body_does_not_contain : List String
  pub follow_redirects : Bool
  pub tls : Option TlsExpectation

pub record TcpProbe : Type 0 where
  pub host : String
  pub port : ℕ
  pub send : List ℕ
  pub expect : List ℕ
  pub tls : Option TlsExpectation

pub record DnsProbe : Type 0 where
  pub resolver : String
  pub name : String
  pub record_type : String
  pub expected_values : List String

pub record ProbeDefinition : Type 0 where
  pub kind : MonitorKind
  pub http : HttpProbe
  pub tcp : TcpProbe
  pub dns : DnsProbe

pub record Monitor : Type 0 where
  pub id : String
  pub name : String
  pub kind : MonitorKind
  pub interval : Duration
  pub timeout : Duration
  pub failure_threshold : ℕ
  pub recovery_threshold : ℕ
  pub http : HttpProbe
  pub tcp : TcpProbe
  pub dns : DnsProbe
  pub enabled : Bool
  pub next_run_at : Time
  pub created_at : Time
  pub updated_at : Time

-- Go's zero values of the three probes.
abbrev pub no_http : HttpProbe
no_http = record {
  method = "";
  url = "";
  headers = [];
  body = [];
  expected_status = [];
  body_contains = [];
  body_does_not_contain = [];
  follow_redirects = false;
  tls = none;
}

abbrev pub no_tcp : TcpProbe
no_tcp = record { host = ""; port = 0; send = []; expect = []; tls = none }

abbrev pub no_dns : DnsProbe
no_dns = record { resolver = ""; name = ""; record_type = ""; expected_values = [] }

-- The slices and maps of a probe are values here, so the `clone` functions copy nothing.
unfoldable pub probe_of : Monitor → ProbeDefinition
probe_of m = record { kind = m.kind; http = m.http; tcp = m.tcp; dns = m.dns }

-- The fields that the parameters of the three constructors share.
pub record MonitorFields : Type 0 where
  pub id : String
  pub name : String
  pub interval : Duration
  pub timeout : Duration
  pub failure_threshold : ℕ
  pub recovery_threshold : ℕ
  pub created_at : Time

unfoldable pub new_monitor : MonitorFields → MonitorKind → Monitor
new_monitor p kind = record {
  id = p.id;
  name = trim_space p.name;
  kind = kind;
  interval = p.interval;
  timeout = p.timeout;
  failure_threshold = p.failure_threshold;
  recovery_threshold = p.recovery_threshold;
  http = no_http;
  tcp = no_tcp;
  dns = no_dns;
  enabled = true;
  next_run_at = p.created_at;
  created_at = p.created_at;
  updated_at = p.created_at;
}

unfoldable pub valid_monitor_fields : MonitorFields → Bool
valid_monitor_fields p =
    not (is_empty p.id)
    && not (is_empty (trim_space p.name))
    && ltb_ℤ (pos 0) p.interval
    && ltb_ℤ (pos 0) p.timeout
    && ltb_ℤ p.timeout p.interval
    && ltb 0 p.failure_threshold
    && ltb 0 p.recovery_threshold

unfoldable pub valid_tls_expectation : Option TlsExpectation → Bool
valid_tls_expectation none = true
valid_tls_expectation (some e) = ltb_ℤ (pos 0) e.minimum_remaining

abbrev valid_header : String × String → Bool
valid_header h =
    not (is_empty (trim_space h.0)) && leb (len h.0) 256 && leb (len h.1) max_probe_payload_bytes

abbrev valid_assertions : List String → Bool
valid_assertions values =
    leb (length values) 20
    && all (λ v. not (is_empty v) && leb (len v) max_probe_payload_bytes) values

unfoldable pub valid_http_assertions : HttpProbe → Bool
valid_http_assertions probe =
    leb (length probe.headers) 100
    && all valid_header probe.headers
    && valid_assertions probe.body_contains
    && valid_assertions probe.body_does_not_contain

abbrev pub dns_record_types : List String
dns_record_types = "A" ∷ "AAAA" ∷ "CNAME" ∷ "MX" ∷ "NS" ∷ "TXT" ∷ "SRV" ∷ []

unfoldable pub valid_dns_record_type : String → Bool
valid_dns_record_type t = any (str_eq t) dns_record_types

unfoldable pub normalize_dns_name : String → String
normalize_dns_name value = trim_dot (trim_space value)
