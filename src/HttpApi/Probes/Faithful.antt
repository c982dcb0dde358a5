-- ===== src/HttpApi/Probes/Faithful.antt =====
-- A definition of a probe through probeFromAPI and probeToAPI of
-- internal/adapters/httpapi/configuration.go.
use text.Mathlib.Text.{◌==◌ as str_eq}
use text.Mathlib.TextEquality.{eq_iff}
use mathlib.Core.Path.{subst}
use xisnove.Prelude.{
  String, Bool, true, false, ◌≡◌, refl, ap, ◌∙◌, Option, none, some, arith, Option-cases, ◌⊎◌, inl,
  inr, if◌then◌else◌,
}
use xisnove.Result.{Result, ok, err, and_then}
use xisnove.Domain.Monitor as domain
use xisnove.Agent.Controlplane.{
  HttpProbeDefinition, TcpProbeDefinition, DnsProbeDefinition, ProbeDefinition,
}
use xisnove.Agent.Probe.Dns.{sort_texts}
use xisnove.HttpApi.Probes.Numbers.{FitsDuration}
use xisnove.HttpApi.Probes.{
  Encoding, validate_probe_fields, http_fields, tcp_fields, dns_fields, kind_from_api, decoded,
  http_from_api, tcp_from_api, dns_from_api, probe_from_api,
}
use xisnove.HttpApi.Probes.ToApi.{http_to_api, tcp_to_api, dns_to_api, probe_to_api}
use xisnove.HttpApi.Probes.Variants.{HttpInRange, http_carried, tcp_carried, dns_carried}

-- Two definitions are of one kind and say the same; the expected values of the second are sorted.
pub data Carried (p q : ProbeDefinition) : Type 0 where
  carried_http :
      (v : HttpProbeDefinition)
      → p.discriminator ≡ some "http"
      → p.as_http ≡ some v
      → q.discriminator ≡ some "http"
      → q.as_http ≡ some v
      → Carried p q
  carried_tcp :
      (v : TcpProbeDefinition)
      → p.discriminator ≡ some "tcp"
      → p.as_tcp ≡ some v
      → q.discriminator ≡ some "tcp"
      → q.as_tcp ≡ some v
      → Carried p q
  carried_dns :
      (v : DnsProbeDefinition)
      → p.discriminator ≡ some "dns"
      → p.as_dns ≡ some v
      → q.discriminator ≡ some "dns"
      → q.as_dns ≡ some (record v { expected_values = sort_texts v.expected_values })
      → Carried p q

-- The generated functions: what From… encodes, Discriminator and As… read.
pub record IsEncoding (encoding : Encoding) : Type 0 where
  pub http :
      (v : HttpProbeDefinition) (q : ProbeDefinition)
      → encoding.from_http v ≡ some q
      → (q.discriminator ≡ some "http") × (q.as_http ≡ some v)
  pub tcp :
      (v : TcpProbeDefinition) (q : ProbeDefinition)
      → encoding.from_tcp v ≡ some q
      → (q.discriminator ≡ some "tcp") × (q.as_tcp ≡ some v)
  pub dns :
      (v : DnsProbeDefinition) (q : ProbeDefinition)
      → encoding.from_dns v ≡ some q
      → (q.discriminator ≡ some "dns") × (q.as_dns ≡ some v)

branch :
    {d : domain.ProbeDefinition} (b : Bool) {x y : Result domain.ProbeDefinition}
    → (if b then x else y) ≡ ok d
    → ((b ≡ true) × (x ≡ ok d)) ⊎ ((b ≡ false) × (y ≡ ok d))
branch true e = inl (refl, e)
branch false e = inr (refl, e)

-- What was decoded, where the tests before it passed.
decoded_from :
    {A : Type 0} (what : String) (fields : Result (Unit {0})) (o : Option A)
    (f : A → Result domain.ProbeDefinition) (d : domain.ProbeDefinition)
    → and_then fields (λ u. decoded what o f) ≡ ok d
    → (v : A) × (o ≡ some v) × (f v ≡ ok d)
decoded_from what (err x) o f d e = absurd (ground (arith, e))
decoded_from what (ok u) none f d e = absurd (ground (arith, e))
decoded_from what (ok u) (some v) f d e = (v, refl, e)

-- The numbers of a definition are those of its types, and its seconds fit a time.Duration.
pub record IsInRange (p : ProbeDefinition) : Type 0 where
  pub http : (v : HttpProbeDefinition) → p.as_http ≡ some v → HttpInRange v
  pub tcp :
      (v : TcpProbeDefinition) → p.as_tcp ≡ some v → FitsDuration v.tls_minimum_remaining_seconds

module _ (encoding : Encoding) (faithful : IsEncoding encoding) (p q : ProbeDefinition) where
  http_sent :
      (d : domain.ProbeDefinition)
      → d.kind ≡ domain.http
      → probe_to_api encoding d ≡ ok q
      → encoding.from_http (http_to_api d.http) ≡ some q
  unfolding probe_to_api
  http_sent d kind e = ground (arith, kind, e)

  tcp_sent :
      (d : domain.ProbeDefinition)
      → d.kind ≡ domain.tcp
      → probe_to_api encoding d ≡ ok q
      → encoding.from_tcp (tcp_to_api d.tcp) ≡ some q
  unfolding probe_to_api
  tcp_sent d kind e = ground (arith, kind, e)

  dns_sent :
      (d : domain.ProbeDefinition)
      → d.kind ≡ domain.dns
      → probe_to_api encoding d ≡ ok q
      → encoding.from_dns (dns_to_api d.dns) ≡ some q
  unfolding probe_to_api
  dns_sent d kind e = ground (arith, kind, e)

  module _ (range : IsInRange p) (d : domain.ProbeDefinition) where
    http_case :
        p.discriminator ≡ some "http"
        → (v : HttpProbeDefinition) → p.as_http ≡ some v
        → http_from_api encoding v ≡ ok d
        → probe_to_api encoding d ≡ ok q
        → Carried p q
    http_case kind v asked e sent =
        let (same, back) = http_carried encoding v d (range.http v asked) e in
        let (named, given) =
          faithful.http v q
            (subst (λ x. encoding.from_http x ≡ some q) back (http_sent d same sent)) in
        carried_http v kind asked named given

    tcp_case :
        p.discriminator ≡ some "tcp"
        → (v : TcpProbeDefinition) → p.as_tcp ≡ some v
        → tcp_from_api v ≡ ok d
        → probe_to_api encoding d ≡ ok q
        → Carried p q
    tcp_case kind v asked e sent =
        let (same, back) = tcp_carried v d (range.tcp v asked) e in
        let (named, given) =
          faithful.tcp v q
            (subst (λ x. encoding.from_tcp x ≡ some q) back (tcp_sent d same sent)) in
        carried_tcp v kind asked named given

    dns_case :
        p.discriminator ≡ some "dns"
        → (v : DnsProbeDefinition) → p.as_dns ≡ some v
        → dns_from_api v ≡ ok d
        → probe_to_api encoding d ≡ ok q
        → Carried p q
    dns_case kind v asked e sent =
        let (same, back) = dns_carried v d e in
        let (named, given) =
          faithful.dns _ q
            (subst (λ x. encoding.from_dns x ≡ some q) back (dns_sent d same sent)) in
        carried_dns v kind asked named given

    of_kind :
        (kind : String)
        → p.discriminator ≡ some kind
        → kind_from_api encoding p kind ≡ ok d
        → probe_to_api encoding d ≡ ok q
        → Carried p q
    of_kind kind known e sent = elim (branch (str_eq kind "http") e) [
      | inl (same, e1) ↦
          let (v, asked, made) =
            decoded_from "invalid HTTP probe" (validate_probe_fields encoding http_fields p)
              p.as_http (http_from_api encoding) d e1 in
          http_case (known ∙ ap some ((eq_iff kind "http").0 same)) v asked made sent
      | inr (differs, e1) ↦ elim (branch (str_eq kind "tcp") e1) [
        | inl (same, e2) ↦
            let (v, asked, made) =
              decoded_from "invalid TCP probe" (validate_probe_fields encoding tcp_fields p)
                p.as_tcp tcp_from_api d e2 in
            tcp_case (known ∙ ap some ((eq_iff kind "tcp").0 same)) v asked made sent
        | inr (differs_too, e2) ↦ elim (branch (str_eq kind "dns") e2) [
          | inl (same, e3) ↦
              let (v, asked, made) =
                decoded_from "invalid DNS probe" (validate_probe_fields encoding dns_fields p)
                  p.as_dns dns_from_api d e3 in
              dns_case (known ∙ ap some ((eq_iff kind "dns").0 same)) v asked made sent
          | inr (unknown, e3) ↦ absurd (ground (arith, e3))
        ]
      ]
    ]

-- A definition of a probe comes back as it was sent: if probeFromAPI accepts a definition, and
-- probeToAPI maps what it made, then the two definitions are of one kind and equal but for the order
-- of the expected values of a DNS probe, which are sorted. The generated functions read what they
-- encoded, and the numbers of the definition are int32, with seconds that fit a time.Duration.
pub probe_to_api-Carried :
    (encoding : Encoding) (p q : ProbeDefinition) (d : domain.ProbeDefinition)
    → IsEncoding encoding
    → IsInRange p
    → probe_from_api encoding p ≡ ok d
    → probe_to_api encoding d ≡ ok q
    → Carried p q
unfolding probe_from_api
probe_to_api-Carried encoding p q d faithful range e sent = elim (Option-cases p.discriminator) [
  | inl none_named ↦ absurd (ground (arith, none_named, e))
  | inr (kind, known) ↦
      of_kind encoding faithful p q range d kind known
        (subst (λ o. decoded "read probe discriminator" o (kind_from_api encoding p) ≡ ok d) known
          e)
        sent
]
