-- ===== src/Agent/Probe/Dns/Fits.antt =====
-- The results of agent/probe/dns.go.
use mathlib.Core.Path.{subst}
use mathlib.Core.List.{Mem}
use xisnove.Prelude.{
  ℕ, ◌≡◌, refl, sym, ◌∙◌, ◌≤◌, String, len, Bool, true, false, List, ◌∷◌, Option, none, some, All,
  arith, if◌then◌else◌,
}
use xisnove.Prelude.Text.{is_empty, trim_space}
use xisnove.Agent.Controlplane.{ProbeWork, DnsProbeDefinition, passed, protocol_error}
use xisnove.Agent.Probe.Addresses.{Addr}
use xisnove.Agent.Probe.Policy.{Policy, resolve_host, ok}
use xisnove.Agent.Probe.Diagnostic.Bounds.{len-diagnostic}
use xisnove.Agent.Probe.Steps.{pure, stop}
use xisnove.Agent.Probe.Steps.Rules.{
  Keeps, Keeps-bind, Keeps-pure, Yields, Yields-bind, Yields-require, Yields-any, some_injective,
}
use xisnove.Agent.Probe.Steps.Fits.{
  Fits, Draft, millis-AreMillis, update-Drafts, stop-Drafts, require-Drafts, set_timings-Drafts,
  value_or_stop-Drafts, run-Fits,
}
use xisnove.Agent.Probe.Steps.Fits.{value-Yields}
use xisnove.Agent.Probe.Dns.{Response, DnsOutside}
use xisnove.Agent.Probe.Dns.Canonical.{
  canonical_dns_values, canonical_expected, canonical_expected_values, each_expected,
}
use xisnove.Agent.Probe.Dns.Execute.{
  resolver_address, first_address, typed, dns_definition, answer_values, assert_values, dns_checks,
  dns_steps, execute_dns,
}
use xisnove.Agent.Probe.Dns.Exchange.{
  IsAnswer, exchange_twice-IsAnswer, first_of, each_expected-Mem,
}
use xisnove.Agent.Probe.Dns.Values.{contains_all-eq, bound_dns_values-Bounded}

module _ {work : ProbeWork} (outside : DnsOutside) where
  typed-Drafts :
      (d : DnsProbeDefinition) (type : Option ℕ) → Keeps (Draft work) (typed outside d type)
  typed-Drafts d none = stop-Drafts _ _ (omega arith)
  typed-Drafts d (some type) = named (is_empty (trim_space d.name))
    where
      named :
          (test : Bool)
          → Keeps {A = DnsProbeDefinition × ℕ}
              (Draft work)
              (if test then stop protocol_error "invalid DNS probe" else pure (d, type))
      named true = stop-Drafts _ _ (omega arith)
      named false = Keeps-pure _

  definition-Drafts :
      (given : Option DnsProbeDefinition) → Keeps (Draft work) (dns_definition outside given)
  definition-Drafts none = stop-Drafts _ _ (omega arith)
  definition-Drafts (some d) = typed-Drafts d _

  assert_values-Drafts :
      (d : DnsProbeDefinition) (type : ℕ) (response : Response)
      → len (outside.rcode_text response.rcode) ≤ 512
      → Keeps (Draft work) (assert_values outside d type response)
  unfolding assert_values
  assert_values-Drafts d type response h = Keeps-bind _ _ (require-Drafts _ _ _ h) λ u.
      Keeps-bind _ _
        (update-Drafts _
          (λ r p.
            let b = bound_dns_values-Bounded (answer_values outside response type) in
            record {
              sample = p.sample;
              observed = (b.few, b.small);
              timings = p.timings;
              latency = p.latency;
              run_id = p.run_id;
              lease_token = p.lease_token;
            })
          (λ r. refl))
        λ u. require-Drafts _ _ _ (len-diagnostic _)

  dns_checks-Drafts :
      (p : Policy)
      → ((code : ℕ) → len (outside.rcode_text code) ≤ 512)
      → Keeps (Draft work) (dns_checks outside p work)
  unfolding dns_checks
  dns_checks-Drafts p short = Keeps-bind _ _ (require-Drafts _ _ _ (omega arith)) λ u.
      Keeps-bind _ _ (require-Drafts _ _ _ (omega arith)) λ u.
        Keeps-bind _ _ (definition-Drafts work.probe.as_dns) λ d.
          Keeps-bind _ _ (value_or_stop-Drafts _ _) λ server.
            Keeps-bind _ _ (value_or_stop-Drafts _ _) λ addresses.
              Keeps-bind _ _
                (set_timings-Drafts _ λ t h. record {
                  dns = millis-AreMillis outside.exchange_time;
                  connect = h.connect;
                  tls = h.tls;
                  first_byte = h.first_byte;
                })
                λ u.
                  Keeps-bind _ _ (value_or_stop-Drafts _ _)
                    λ response. assert_values-Drafts _ _ response (short response.rcode)

module _ (outside : DnsOutside) (p : Policy) (work : ProbeWork) where
  -- Each expected value is among the canonical values of the answer.
  abbrev pub ArePresent : DnsProbeDefinition → ℕ → Response → Type 0
  ArePresent d type response =
      All
        (λ value.
          Mem (canonical_expected outside type value)
            (canonical_dns_values outside response.answer type))
        d.expected_values

  pub record Evidence : Type 0 where
    pub definition : DnsProbeDefinition
    pub asked : work.probe.as_dns ≡ some definition
    pub type : ℕ
    pub known : outside.string_to_type definition.record_type ≡ some type
    pub host : String
    pub port : ℕ
    pub server : resolver_address outside definition.resolver ≡ ok (host, port)
    pub address : Addr
    pub others : List Addr
    pub resolved : resolve_host outside.parse_addr outside.resolver p host ≡ ok (address ∷ others)
    pub response : Response
    pub exchanged : IsAnswer outside address port (outside.fqdn definition.name) type response
    pub success : response.rcode ≡ 0
    pub present : ArePresent definition type response

  abbrev IsDefinition : DnsProbeDefinition × ℕ → Type 0
  IsDefinition (d, type) =
      (work.probe.as_dns ≡ some d) × (outside.string_to_type d.record_type ≡ some type)

  IsDefinition-Yields :
      (given : Option DnsProbeDefinition)
      → work.probe.as_dns ≡ given
      → Yields IsDefinition (dns_definition outside given)
  IsDefinition-Yields none h = record { at = λ r a e. absurd (ground (arith, e)) }
  IsDefinition-Yields (some d) h = typed-Yields (outside.string_to_type d.record_type) refl
    where
      typed-Yields :
          (type : Option ℕ)
          → outside.string_to_type d.record_type ≡ type
          → Yields IsDefinition (typed outside d type)
      typed-Yields none k = record { at = λ r a e. absurd (ground (arith, e)) }
      typed-Yields (some type) k = named (is_empty (trim_space d.name))
        where
          named :
              (test : Bool)
              → Yields IsDefinition
                  (if test then stop protocol_error "invalid DNS probe" else pure (d, type))
          named true = record { at = λ r a e. absurd (ground (arith, e)) }
          named false = record { at = λ r a e. subst IsDefinition (some_injective e) (h, k) }

  assert_values-Yields :
      (d : DnsProbeDefinition) (type : ℕ) (response : Response)
      → Yields
          (λ u. (response.rcode ≡ 0) × ArePresent d type response)
          (assert_values outside d type response)
  unfolding assert_values answer_values canonical_expected_values
  assert_values-Yields d type response = Yields-bind _ _ _ (Yields-require _ _ _) λ u success.
      Yields-bind (λ u. Unit {0}) _ _ (Yields-any _)
        λ u x. record {
          at = λ r a e. (
            ground (arith, success),
            each_expected-Mem outside _ d.expected_values type (
                sym (contains_all-eq _ (each_expected outside d.expected_values type))
                ∙ (Yields-require _ _ _).at r a e),
          );
        }

  dns_checks-Evidence : Yields (λ u. Evidence) (dns_checks outside p work)
  unfolding dns_checks
  dns_checks-Evidence =
      Yields-bind (λ u. Unit {0}) _ _ (Yields-any _)
        λ u x.
          Yields-bind (λ u. Unit {0}) _ _ (Yields-any _)
            λ u x. Yields-bind _ _ _ (IsDefinition-Yields work.probe.as_dns refl) λ d asked.
              Yields-bind _ _ _ (value-Yields _ _) λ server found.
                Yields-bind _ _ _ (value-Yields _ _) λ addresses resolved.
                  Yields-bind (λ u. Unit {0}) _ _ (Yields-any _)
                    λ u x. Yields-bind _ _ _ (value-Yields _ _) λ response exchanged. record {
                      at = λ r a e.
                          let (success, present) =
                            (assert_values-Yields d.0 d.1 response).at r a e in
                          record {
                            definition = d.0;
                            asked = asked.0;
                            type = d.1;
                            known = asked.1;
                            host = server.0;
                            port = server.1;
                            server = found;
                            address = first_address outside addresses;
                            others = (first_of outside p server.0 addresses resolved).0;
                            resolved = (first_of outside p server.0 addresses resolved).1;
                            response = response;
                            exchanged = exchange_twice-IsAnswer outside _ _ _ _ response exchanged;
                            success = success;
                            present = present;
                          };
                    }

  both :
      ((code : ℕ) → len (outside.rcode_text code) ≤ 512)
      → Fits work (execute_dns outside p work)
        × ((execute_dns outside p work).outcome ≡ passed → Evidence)
  unfolding execute_dns dns_steps
  both short =
      run-Fits outside.id outside.started outside.finished work (dns_checks outside p work)
        (λ u. Evidence) (dns_checks-Drafts outside p short) dns_checks-Evidence

  pub execute_dns-Fits :
      ((code : ℕ) → len (outside.rcode_text code) ≤ 512) → Fits work (execute_dns outside p work)
  execute_dns-Fits short = (both short).0

  -- A DNS probe that passes has evidence: the resolver's host has addresses, the first of them was asked
  -- for the name and the type of the probe, over TCP again if the answer was truncated; the answer is a
  -- success, and the canonical form of every expected value is among the canonical values of the answer.
  -- The texts of response codes are at most 512 bytes long.
  pub execute_dns-Evidence :
      ((code : ℕ) → len (outside.rcode_text code) ≤ 512)
      → (execute_dns outside p work).outcome ≡ passed
      → Evidence
  execute_dns-Evidence short = (both short).1
