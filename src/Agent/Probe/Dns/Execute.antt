-- ===== src/Agent/Probe/Dns/Execute.antt =====
-- agent/probe/dns.go: the address of the resolver, the exchange with it, and Execute.
use text.Mathlib.Text.{◌==◌ as str_eq}
use Prim.Native.Char.{code}
use Prim.Native.String.{String, [] as nil, ◌∷◌ as cons}
use xisnove.Prelude.{
  ℕ, Bool, true, false, not, ◌&&◌, ◌||◌, List, [], ◌∷◌, Option, none, some, ◌==◌, if◌then◌else◌,
}
use xisnove.Prelude.Int.{pos, leb_ℤ}
use xisnove.Prelude.Text.{is_empty, trim_space, trim_dot}
use xisnove.Agent.Controlplane.{
  ProbeWork, ProbeResultInput, DnsProbeDefinition, protocol_error, dns_error, dns_mismatch,
}
use xisnove.Agent.Probe.Addresses.{Addr, invalid}
use xisnove.Agent.Probe.Policy.{Outcome, ok, failed, Policy, plain, resolve_host}
use xisnove.Agent.Probe.Diagnostic.{
  diagnostic, classify_network_error, dns_error_code, value_or_stop,
}
use xisnove.Agent.Probe.Steps.{
  Steps, pure, stop, update, require, pass, set_timings, millis, run, ◌>>=◌, ◌>>◌,
}
use xisnove.Agent.Probe.Dns.{
  Response, DnsOutside, join, sort_texts, compact, contains_all, bound_dns_values,
}
use xisnove.Agent.Probe.Dns.Canonical.{canonical_dns_values, canonical_expected_values}

-- strings.Trim(raw, "[]") and strings.Contains(raw, ":")
abbrev is_bracket : ℕ → Bool
is_bracket c = c == b'[' || c == b']'

abbrev trim_brackets_left : String → String
trim_brackets_left nil = nil
trim_brackets_left (cons c s) =
    let rest = trim_brackets_left s in if is_bracket (code c) then rest else cons c s

abbrev trim_brackets_right : String → String
trim_brackets_right nil = nil
trim_brackets_right (cons c s) =
    let rest = trim_brackets_right s in
    if is_bracket (code c) && is_empty rest then nil else cons c rest

abbrev has_colon : String → Bool
has_colon nil = false
has_colon (cons c s) = code c == b':' || has_colon s

module _ (outside : DnsOutside) where
  abbrev ported : String → Option ℕ → String → Outcome (String × ℕ)
  ported host none what = failed (plain what)
  ported host (some port) what = if port == 0 then failed (plain what) else ok (host, port)

  abbrev system_resolver : Option (List String × String) → Outcome (String × ℕ)
  system_resolver none = failed (plain "system DNS resolver is unavailable")
  system_resolver (some ([], port)) = failed (plain "system DNS resolver is unavailable")
  system_resolver (some (server ∷ others, port)) =
      ported server (outside.parse_port port) "system DNS resolver port is invalid"

  abbrev literal_resolver : String → Option Addr → Outcome (String × ℕ)
  literal_resolver raw (some address) = ok (outside.addr_text address, 53)
  literal_resolver raw none =
      if has_colon raw
      then failed (plain "DNS resolver address is invalid")
      else ok (trim_dot raw, 53)

  abbrev named_resolver : String → Option (String × String) → Outcome (String × ℕ)
  named_resolver raw (some (host, port)) =
      ported (trim_dot host) (outside.parse_port port) "DNS resolver port is invalid"
  named_resolver raw none =
      literal_resolver raw (outside.parse_addr (trim_brackets_right (trim_brackets_left raw)))

  unfoldable pub resolver_address : String → Outcome (String × ℕ)
  resolver_address text =
      let raw = trim_space text in
      if is_empty raw
      then system_resolver outside.resolv_conf
      else named_resolver raw (outside.split_host_port raw)

  -- Over UDP, and over TCP where the answer was truncated.
  abbrev pub retried : Outcome Response → Outcome Response → Outcome Response
  retried (failed e) over_tcp = failed e
  retried (ok response) over_tcp = if response.truncated then over_tcp else ok response

  unfoldable pub exchange_twice : Addr → ℕ → String → ℕ → Outcome Response
  exchange_twice server port name type =
      retried (outside.exchange false server port name type)
        (outside.exchange true server port name type)

  -- addresses[0]
  abbrev pub first_address : List Addr → Addr
  first_address [] = invalid
  first_address (address ∷ rest) = address

  abbrev pub is_dns : Option String → Bool
  is_dns none = false
  is_dns (some kind) = str_eq kind "dns"

  abbrev pub typed : DnsProbeDefinition → Option ℕ → Steps (DnsProbeDefinition × ℕ)
  typed d none = stop protocol_error "invalid DNS probe"
  typed d (some type) =
      if is_empty (trim_space d.name)
      then stop protocol_error "invalid DNS probe"
      else pure (d, type)

  abbrev pub dns_definition : Option DnsProbeDefinition → Steps (DnsProbeDefinition × ℕ)
  dns_definition none = stop protocol_error "invalid DNS probe"
  dns_definition (some d) = typed d (outside.string_to_type d.record_type)

  -- slices.Compact of the sorted values of the answer
  unfoldable pub answer_values : Response → ℕ → List String
  answer_values response type =
      compact (sort_texts (canonical_dns_values outside response.answer type))

  unfoldable pub assert_values : DnsProbeDefinition → ℕ → Response → Steps (Unit {0})
  assert_values d type response = do
    require (response.rcode == 0) dns_error (outside.rcode_text response.rcode)
    update λ result. record result {
      observed_values = some (bound_dns_values (answer_values response type));
    }
    require
        (contains_all (answer_values response type)
          (canonical_expected_values outside d.expected_values type))
        dns_mismatch (diagnostic (join ", " (bound_dns_values (answer_values response type))))

  unfoldable pub dns_checks : Policy → ProbeWork → Steps (Unit {0})
  dns_checks policy work = do
    require (not (leb_ℤ work.timeout_millis (pos 0))) protocol_error "invalid timeout"
    require (is_dns work.probe.discriminator) protocol_error "invalid DNS probe"
    (definition, type) ← dns_definition work.probe.as_dns
    (host, port) ← value_or_stop (λ e. protocol_error) (resolver_address definition.resolver)
    addresses ←
        value_or_stop classify_network_error
          (resolve_host outside.parse_addr outside.resolver policy host)
    set_timings λ t. record t { dns_millis = some (millis outside.exchange_time) }
    response ←
        value_or_stop dns_error_code
          (exchange_twice (first_address addresses) port (outside.fqdn definition.name) type)
    assert_values definition type response

  unfoldable pub dns_steps : Policy → ProbeWork → Steps (Unit {0})
  unfolding dns_checks
  dns_steps policy work = do dns_checks policy work; pass

  unfoldable pub execute_dns : Policy → ProbeWork → ProbeResultInput
  unfolding dns_steps run
  execute_dns policy work =
      run outside.id outside.started outside.finished work (dns_steps policy work)
