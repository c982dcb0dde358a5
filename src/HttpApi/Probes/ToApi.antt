-- ===== src/HttpApi/Probes/ToApi.antt =====
-- probeToAPI of internal/adapters/httpapi/configuration.go.
use xisnove.Prelude.{Option, none, some, map, if◌then◌else◌}
use xisnove.Prelude.Int.{pos}
use xisnove.Result.{Result, ok, err, other}
use xisnove.Domain.Monitor as domain
use xisnove.Domain.Monitor.{TlsExpectation, HttpProbe, TcpProbe, DnsProbe, no_http, no_tcp, no_dns}
use xisnove.Agent.Controlplane.{
  HttpProbeDefinition, TcpProbeDefinition, DnsProbeDefinition, ProbeDefinition,
}
use xisnove.Agent.Probe.Dns.{sort_texts}
use xisnove.HttpApi.Probes.{Encoding, has_secret, secret_header, tls_to_seconds, status_to_api}

unfoldable pub http_to_api : HttpProbe → HttpProbeDefinition
unfolding tls_to_seconds
http_to_api probe = record {
  method = probe.method;
  url = probe.url;
  headers = probe.headers;
  body = probe.body;
  expected_status = map status_to_api probe.expected_status;
  body_contains = probe.body_contains;
  body_does_not_contain = probe.body_does_not_contain;
  follow_redirects = probe.follow_redirects;
  tls_minimum_remaining_seconds = tls_to_seconds probe.tls;
}

unfoldable pub tcp_to_api : TcpProbe → TcpProbeDefinition
unfolding tls_to_seconds
tcp_to_api probe = record {
  host = probe.host;
  port = pos probe.port;
  send = probe.send;
  expect = probe.expect;
  tls_minimum_remaining_seconds = tls_to_seconds probe.tls;
}

unfoldable pub dns_to_api : DnsProbe → DnsProbeDefinition
dns_to_api probe = record {
  resolver = probe.resolver;
  name = probe.name;
  record_type = probe.record_type;
  expected_values = sort_texts probe.expected_values;
}

abbrev encoded : Option ProbeDefinition → Result ProbeDefinition
encoded none = err (other "encode probe")
encoded (some probe) = ok probe

module _ (encoding : Encoding) where
  -- The headers are a map, so the order in which they are copied does not show.
  unfoldable pub probe_to_api : domain.ProbeDefinition → Result ProbeDefinition
  unfolding http_to_api tcp_to_api dns_to_api secret_header
  probe_to_api probe = elim probe.kind [
    | domain.http ↦
        if has_secret encoding probe.http.headers
        then err (other "map probe: secret HTTP header")
        else encoded (encoding.from_http (http_to_api probe.http))
    | domain.tcp ↦ encoded (encoding.from_tcp (tcp_to_api probe.tcp))
    | domain.dns ↦ encoded (encoding.from_dns (dns_to_api probe.dns))
    | domain.other s ↦ err (other "map probe: unsupported kind")
  ]
