-- ===== src/HttpApi/Probes/Variants.antt =====
-- The three kinds of probes from the API and back, in internal/adapters/httpapi/configuration.go.
use mathlib.Core.Path.{subst}
use xisnove.Prelude.{Bool, false, ◌≡◌, refl, arith, All, if◌then◌else◌}
use xisnove.Prelude.Int.{pos, leb_ℤ, ltb_ℤ}
use xisnove.Result.{Error, ok, err}
use xisnove.Domain.Monitor as domain
use xisnove.Agent.Controlplane.{HttpProbeDefinition, TcpProbeDefinition, DnsProbeDefinition}
use xisnove.Agent.Probe.Dns.{sort_texts}
use xisnove.HttpApi.Probes.Numbers.{FitsDuration, IsRange, tls-seconds, statuses_back, u16-eq}
use xisnove.HttpApi.Probes.{
  Encoding, http_from_api, http_of, tcp_from_api, tcp_invalid, dns_from_api,
}
use xisnove.HttpApi.Probes.ToApi.{http_to_api, tcp_to_api, dns_to_api}

-- The numbers of a definition are those of its types.
abbrev pub HttpInRange : HttpProbeDefinition → Type 0
HttpInRange v = FitsDuration v.tls_minimum_remaining_seconds × All IsRange v.expected_status

-- What a test that refuses, then builds, has built.
built :
    (e : Error) {refused : Bool} {made d : domain.ProbeDefinition}
    → (if refused then err e else ok made) ≡ ok d
    → (refused ≡ false) × (made ≡ d)
built e h = ground arith

http_accepted :
    (encoding : Encoding) (v : HttpProbeDefinition) (d : domain.ProbeDefinition)
    → http_from_api encoding v ≡ ok d
    → http_of v ≡ d
unfolding http_from_api
http_accepted encoding v d e = ground (arith, e)

pub http_carried :
    (encoding : Encoding) (v : HttpProbeDefinition) (d : domain.ProbeDefinition)
    → HttpInRange v
    → http_from_api encoding v ≡ ok d
    → (d.kind ≡ domain.http) × (http_to_api d.http ≡ v)
unfolding http_to_api
http_carried encoding v d (fits, ranges) e =
    subst (λ (x : domain.ProbeDefinition). (x.kind ≡ domain.http) × (http_to_api x.http ≡ v))
      (http_accepted encoding v d e)
      (
        refl,
        rw
            (
              tls-seconds v.tls_minimum_remaining_seconds fits,
              statuses_back v.expected_status ranges,
            )
            refl,
      )

port_valid :
    (v : TcpProbeDefinition)
    → tcp_invalid v ≡ false
    → (leb_ℤ v.port (pos 0) ≡ false) × (ltb_ℤ (pos 65_535) v.port ≡ false)
port_valid v h = ground (arith, h)

pub tcp_carried :
    (v : TcpProbeDefinition) (d : domain.ProbeDefinition)
    → FitsDuration v.tls_minimum_remaining_seconds
    → tcp_from_api v ≡ ok d
    → (d.kind ≡ domain.tcp) × (tcp_to_api d.tcp ≡ v)
unfolding tcp_from_api tcp_to_api
tcp_carried v d fits e =
    let (valid, made) = built _ e in
    let (above, below) = port_valid v valid in
    subst (λ (x : domain.ProbeDefinition). (x.kind ≡ domain.tcp) × (tcp_to_api x.tcp ≡ v)) made
      (refl, rw (tls-seconds v.tls_minimum_remaining_seconds fits, u16-eq v.port above below) refl)

pub dns_carried :
    (v : DnsProbeDefinition) (d : domain.ProbeDefinition)
    → dns_from_api v ≡ ok d
    → (d.kind ≡ domain.dns)
      × (dns_to_api d.dns ≡ record v { expected_values = sort_texts v.expected_values })
unfolding dns_from_api dns_to_api
dns_carried v d e = ground (arith, e)
