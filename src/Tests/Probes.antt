-- ===== src/Tests/Probes.antt =====
-- The theorems on probes at concrete inputs.
use xisnove.Prelude.{
  ℕ, zero, suc, ◌≡◌, refl, ◌↔◌, ◌≢◌, ◌<◌, String, len, true, false, List, [], ◌∷◌, Option, none,
  some, All, arith, inl, length, ◌≤◌, ◌⊎◌,
}
use xisnove.Prelude.Int.{pos}
use xisnove.Prelude.Text.{trim_dot, trim_space, trim_left, trim_right}
use xisnove.Agent.Controlplane.{
  ProbeWork, HttpProbeDefinition, TcpProbeDefinition, DnsProbeDefinition, passed,
}
use xisnove.Agent.Probe.Addresses.{Addr, v4, v6, prefix4, unmap}
use xisnove.Agent.Probe.Policy.{
  NetworkError, ok, Policy, Resolver, validate_address, validate_each, resolve_host,
}
use xisnove.Agent.Probe.Policy.Reachable.{
  Reachable, IsPublic, resolve_host-Reachable, validate_address-IsPublic,
}
use xisnove.Agent.Probe.Steps.{◌>>=◌, update, require, set_timings, begin, finish, run, pass}
use xisnove.Agent.Probe.Diagnostic.{unless_error, value_or_stop}
use xisnove.Agent.Probe.Tcp.{
  TcpOutside, is_some, read_until_expected, dial_validated, tcp_definition, tls_steps, send_steps,
  expect_observed, expect_steps, tcp_checks, tcp_steps, execute_tcp,
}
use xisnove.Agent.Probe.Tcp.Reading.{Reads, Ends, read_until_expected-Ended}
use xisnove.Agent.Probe.Tcp.Evidence as tcp
use xisnove.Agent.Probe.Tcp.Fits.{execute_tcp-Evidence}
use xisnove.Agent.Probe.Dns.{
  DnsOutside, a, insert_text, sort_texts, compact, contains_all, bound_after, bound_dns_values,
}
use xisnove.Agent.Probe.Dns.Canonical.{
  canonical_dns_values, canonical_expected, each_expected, canonical_expected_values,
}
use xisnove.Agent.Probe.Dns.Execute.{
  resolver_address, exchange_twice, answer_values, assert_values, dns_checks, dns_steps,
  execute_dns,
}
use xisnove.Agent.Probe.Dns.Values.{Bounded, bound_dns_values-Bounded}
use xisnove.Agent.Probe.Dns.Fits as dns
use xisnove.Agent.Probe.Dns.Fits.{execute_dns-Evidence}

-- 10/8 is allowed; every name is 93.184.216.34.
abbrev pub policy : Policy
policy = record {
  allowed_private = prefix4 0x0a000000 8 ∷ [];
  max_response_bytes = pos 65_536;
  max_redirects = pos 3;
  resolver = none;
}

abbrev pub unparsed : String → Option Addr
unparsed s = none

abbrev pub resolver : Resolver
resolver host = ok (v4 0x5db8d822 ∷ [])

resolves : resolve_host unparsed resolver policy "example.org." ≡ ok (v4 0x5db8d822 ∷ [])
unfolding resolve_host trim_dot validate_each validate_address unmap
resolves = refl

resolve_host-Reachable_example :
    (v4 0x5db8d822 ∷ [] ≢ []) × All (Reachable policy.allowed_private) (v4 0x5db8d822 ∷ [])
resolve_host-Reachable_example =
    resolve_host-Reachable unparsed resolver policy "example.org." (v4 0x5db8d822 ∷ []) resolves

validate_address-IsPublic_example :
    (validate_address [] (v6 0 "eth0") ≡ ok tt) ↔ IsPublic (v6 0 "eth0")
validate_address-IsPublic_example =
    validate_address-IsPublic (v6 0 "eth0") (λ e. absurd (ground (arith, e)))

-- A connection that gives one byte at a time.
abbrev trickle : ℕ → ℕ → List ℕ × Option NetworkError
trickle n zero = ([], none)
trickle n (suc size) = (7 ∷ [], none)

trickle-Reads : Reads trickle
trickle-Reads = record { within = within; progress = progress }
  where
    within : (n size : ℕ) → length (trickle n size).0 ≤ size
    within n zero = ground arith
    within n (suc size) = omega arith

    progress :
        (n size : ℕ)
        → 0 < size
        → (0 < length (trickle n size).0) ⊎ (is_some (trickle n size).1 ≡ true)
    progress n zero h = absurd (omega arith)
    progress n (suc size) h = inl (omega arith)

read_until_expected-Ended_example : Ends (8 ∷ []) (read_until_expected trickle (8 ∷ []) 4097 0 [])
read_until_expected-Ended_example =
    read_until_expected-Ended trickle (8 ∷ []) 4097 0 [] trickle-Reads (omega arith) (omega arith)

abbrev pub asked :
    Option TcpProbeDefinition
    → Option DnsProbeDefinition
    → Option HttpProbeDefinition
    → String
    → ProbeWork
asked as_tcp as_dns as_http kind = record {
  run_id = "r";
  monitor_id = "m";
  lease_token = "t";
  scheduled_for = pos 100_000_000_000;
  timeout_millis = pos 5000;
  probe = record { discriminator = some kind; as_http = as_http; as_tcp = as_tcp; as_dns = as_dns };
}

abbrev tcp_work : ProbeWork
tcp_work =
    asked
      (some (record {
        host = "example.org";
        port = pos 25;
        send = [];
        expect = 7 ∷ [];
        tls_minimum_remaining_seconds = none;
      }))
      none none "tcp"

abbrev pub over_tcp : TcpOutside
over_tcp = record {
  id = "x";
  started = pos 101_000_000_000;
  finished = pos 102_000_000_000;
  parse_addr = unparsed;
  resolver = resolver;
  dial = λ address port. none;
  connect_time = pos 1_000_000;
  set_deadline = none;
  handshake = none;
  handshake_time = pos 0;
  certificates = [];
  until = λ t. pos 0;
  write = λ bytes. none;
  read = trickle;
  text_of = λ bytes. "";
}

tcp_passes : (execute_tcp over_tcp policy tcp_work).outcome ≡ passed
unfolding execute_tcp tcp_steps tcp_checks run begin finish ◌>>=◌ require update set_timings pass
    tcp_definition value_or_stop unless_error resolve_host trim_dot validate_each validate_address
    unmap dial_validated tls_steps send_steps expect_steps expect_observed read_until_expected
tcp_passes = refl

execute_tcp-Evidence_example : tcp.Evidence over_tcp policy tcp_work
execute_tcp-Evidence_example = execute_tcp-Evidence over_tcp policy tcp_work tcp_passes

abbrev dns_work : ProbeWork
dns_work =
    asked none
      (some (record {
        resolver = "";
        name = "example.org";
        record_type = "A";
        expected_values = "93.184.216.34" ∷ [];
      }))
      none "dns"

abbrev pub over_dns : DnsOutside
over_dns = record {
  id = "x";
  started = pos 101_000_000_000;
  finished = pos 102_000_000_000;
  parse_addr = unparsed;
  addr_text = λ address. "";
  to_lower = λ s. s;
  decimal = λ n. "";
  split_host_port = λ s. none;
  parse_port = λ s. some 53;
  resolv_conf = some ("ns.example.org" ∷ [], "53");
  string_to_type = λ s. some 1;
  fqdn = λ s. s;
  resolver = resolver;
  exchange = λ over_tcp server port name type. ok (record {
    truncated = false;
    rcode = 0;
    answer = a "93.184.216.35" ∷ a "93.184.216.34" ∷ [];
  });
  exchange_time = pos 1_000_000;
  rcode_text = λ code. "";
}

pub short_codes : (code : ℕ) → len (over_dns.rcode_text code) ≤ 512
short_codes code = omega arith

dns_passes : (execute_dns over_dns policy dns_work).outcome ≡ passed
unfolding execute_dns dns_steps dns_checks run begin finish ◌>>=◌ require update set_timings pass
    value_or_stop resolver_address trim_space trim_left trim_right trim_dot resolve_host
    validate_each validate_address unmap exchange_twice assert_values answer_values
    canonical_dns_values canonical_expected canonical_expected_values each_expected sort_texts
    insert_text compact contains_all bound_dns_values bound_after
dns_passes = refl

execute_dns-Evidence_example : dns.Evidence over_dns policy dns_work
execute_dns-Evidence_example = execute_dns-Evidence over_dns policy dns_work short_codes dns_passes

bound_dns_values-Bounded_example : Bounded ("b" ∷ "a" ∷ []) (bound_dns_values ("b" ∷ "a" ∷ []))
bound_dns_values-Bounded_example = bound_dns_values-Bounded ("b" ∷ "a" ∷ [])
