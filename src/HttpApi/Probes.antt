-- ===== src/HttpApi/Probes.antt =====
-- probeFromAPI of internal/adapters/httpapi/configuration.go. The definitions of probes
-- are those of the agent: both are generated from one description. encoding/json, the generated
-- functions on the union of definitions, and strings.ToLower are parameters.
pub mod Numbers
pub mod ToApi
pub mod Variants
pub mod Faithful
use text.Mathlib.Text.{◌==◌ as str_eq}
use xisnove.Prelude.{
  ℕ, String, Bool, true, false, not, ◌&&◌, ◌||◌, List, [], ◌∷◌, Option, none, some, all, any, map,
  ltb, length, if◌then◌else◌,
}
use xisnove.Prelude.Int.{ℤ, pos, ◌*ℤ◌, leb_ℤ, ltb_ℤ, i64, i32, u16, quot}
use xisnove.Prelude.Text.{trim_space}
use xisnove.Result.{Result, ok, err, other, and_then}
use xisnove.Domain.Monitor as domain
use xisnove.Domain.Monitor.{TlsExpectation, HttpProbe, TcpProbe, DnsProbe, no_http, no_tcp, no_dns}
use xisnove.Agent.Controlplane.{
  StatusRange, HttpProbeDefinition, TcpProbeDefinition, DnsProbeDefinition, ProbeDefinition,
}
use xisnove.Agent.Probe.Dns.{sort_texts}

pub record Encoding : Type 0 where
  -- the names of the fields of a definition as JSON; `none` is an error
  pub fields_of : ProbeDefinition → Option (List String)
  -- FromHTTPProbeDefinition, FromTCPProbeDefinition and FromDNSProbeDefinition
  pub from_http : HttpProbeDefinition → Option ProbeDefinition
  pub from_tcp : TcpProbeDefinition → Option ProbeDefinition
  pub from_dns : DnsProbeDefinition → Option ProbeDefinition
  -- strings.ToLower
  pub to_lower : String → String

abbrev one_of : List String → String → Bool
one_of names s = any (str_eq s) names

abbrev pub is_nil {ℓ} : {A : Type ℓ} → List A → Bool
is_nil [] = true
is_nil (x ∷ xs) = false

-- HTTPProbeDefinitionMethod.Valid
abbrev pub valid_method : String → Bool
valid_method = one_of ("DELETE" ∷ "GET" ∷ "HEAD" ∷ "OPTIONS" ∷ "PATCH" ∷ "POST" ∷ "PUT" ∷ [])

-- DNSProbeDefinitionRecordType.Valid
abbrev pub valid_record_type : String → Bool
valid_record_type = one_of ("A" ∷ "AAAA" ∷ "CNAME" ∷ "MX" ∷ "NS" ∷ "SRV" ∷ "TXT" ∷ [])

unfoldable pub tls_from_seconds : Option ℤ → Option TlsExpectation
tls_from_seconds none = none
tls_from_seconds (some n) = some (record { minimum_remaining = i64 (n *ℤ pos 1_000_000_000) })

unfoldable pub tls_to_seconds : Option TlsExpectation → Option ℤ
tls_to_seconds none = none
tls_to_seconds (some e) = some (quot e.minimum_remaining (pos 1_000_000_000))

abbrev pub status_from_api : StatusRange → domain.StatusRange
status_from_api s = record { min = s.minimum; max = s.maximum }

abbrev pub status_to_api : domain.StatusRange → StatusRange
status_to_api s = record { minimum = i32 s.min; maximum = i32 s.max }

abbrev pub decoded : {A B : Type 0} → String → Option A → (A → Result B) → Result B
decoded what none f = err (other what)
decoded what (some a) f = f a

abbrev pub tcp_invalid : TcpProbeDefinition → Bool
tcp_invalid value =
    leb_ℤ value.port (pos 0)
    || ltb_ℤ (pos 65_535) value.port
    || ltb 4096 (length value.send)
    || ltb 4096 (length value.expect)

abbrev pub tcp_of : TcpProbeDefinition → domain.ProbeDefinition
tcp_of value = record {
  kind = domain.tcp;
  http = no_http;
  tcp = record {
    host = value.host;
    port = u16 value.port;
    send = value.send;
    expect = value.expect;
    tls = tls_from_seconds value.tls_minimum_remaining_seconds;
  };
  dns = no_dns;
}

unfoldable pub tcp_from_api : TcpProbeDefinition → Result domain.ProbeDefinition
tcp_from_api value =
    if tcp_invalid value then err (other "invalid TCP probe") else ok (tcp_of value)

abbrev pub http_invalid : HttpProbeDefinition → Bool
http_invalid value =
    not (valid_method value.method) || is_nil value.expected_status || ltb 4096 (length value.body)

abbrev pub http_of : HttpProbeDefinition → domain.ProbeDefinition
http_of value = record {
  kind = domain.http;
  http = record {
    method = value.method;
    url = value.url;
    headers = value.headers;
    body = value.body;
    expected_status = map status_from_api value.expected_status;
    body_contains = value.body_contains;
    body_does_not_contain = value.body_does_not_contain;
    follow_redirects = value.follow_redirects;
    tls = tls_from_seconds value.tls_minimum_remaining_seconds;
  };
  tcp = no_tcp;
  dns = no_dns;
}

unfoldable pub dns_from_api : DnsProbeDefinition → Result domain.ProbeDefinition
dns_from_api value =
    if not (valid_record_type value.record_type)
    then err (other "invalid DNS probe")
    else ok (record {
      kind = domain.dns;
      http = no_http;
      tcp = no_tcp;
      dns = record {
        resolver = value.resolver;
        name = value.name;
        record_type = value.record_type;
        expected_values = value.expected_values;
      };
    })

abbrev pub http_fields : List String
http_fields =
    "kind" ∷ "method" ∷ "url" ∷ "headers" ∷ "body" ∷ "expectedStatus" ∷ "bodyContains"
    ∷ "bodyDoesNotContain" ∷ "followRedirects" ∷ "tlsMinimumRemainingSeconds" ∷ []

abbrev pub tcp_fields : List String
tcp_fields = "kind" ∷ "host" ∷ "port" ∷ "send" ∷ "expect" ∷ "tlsMinimumRemainingSeconds" ∷ []

abbrev pub dns_fields : List String
dns_fields = "kind" ∷ "resolver" ∷ "name" ∷ "recordType" ∷ "expectedValues" ∷ []

module _ (encoding : Encoding) where
  unfoldable pub secret_header : String → Bool
  secret_header name =
      one_of ("authorization" ∷ "cookie" ∷ "proxy-authorization" ∷ "set-cookie" ∷ [])
        (encoding.to_lower (trim_space name))

  abbrev pub has_secret : List (String × String) → Bool
  has_secret headers = any (λ (header : String × String). secret_header header.0) headers

  unfoldable pub validate_probe_fields : List String → ProbeDefinition → Result (Unit {0})
  validate_probe_fields allowed probe =
      decoded "decode probe fields" (encoding.fields_of probe) λ fields.
        if all (one_of allowed) fields then ok tt else err (other "unexpected probe field")

  unfoldable pub http_from_api : HttpProbeDefinition → Result domain.ProbeDefinition
  unfolding secret_header
  http_from_api value =
      if http_invalid value
      then err (other "invalid HTTP probe")
      else if has_secret value.headers
      then err (other "secret HTTP header is not accepted")
      else ok (http_of value)

  abbrev pub http_branch : ProbeDefinition → Result domain.ProbeDefinition
  http_branch probe =
      and_then (validate_probe_fields http_fields probe)
        λ u. decoded "invalid HTTP probe" probe.as_http http_from_api

  abbrev pub tcp_branch : ProbeDefinition → Result domain.ProbeDefinition
  tcp_branch probe =
      and_then (validate_probe_fields tcp_fields probe)
        λ u. decoded "invalid TCP probe" probe.as_tcp tcp_from_api

  abbrev pub dns_branch : ProbeDefinition → Result domain.ProbeDefinition
  dns_branch probe =
      and_then (validate_probe_fields dns_fields probe)
        λ u. decoded "invalid DNS probe" probe.as_dns dns_from_api

  abbrev pub kind_from_api : ProbeDefinition → String → Result domain.ProbeDefinition
  kind_from_api probe kind =
      if str_eq kind "http"
      then http_branch probe
      else if str_eq kind "tcp"
      then tcp_branch probe
      else if str_eq kind "dns"
      then dns_branch probe
      else err (other "unsupported probe kind")

  unfoldable pub probe_from_api : ProbeDefinition → Result domain.ProbeDefinition
  probe_from_api probe =
      decoded "read probe discriminator" probe.discriminator (kind_from_api probe)
