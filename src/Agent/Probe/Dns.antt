-- ===== src/Agent/Probe/Dns.antt =====
-- agent/probe/dns.go. The package miekg/dns, the parsing and printing of addresses, ports and numbers, and
-- strings.ToLower are parameters.
pub mod Canonical
pub mod Execute
pub mod Values
pub mod Exchange
pub mod Fits
use text.Mathlib.Text.{◌==◌ as str_eq}
use Prim.Native.Nat.{Ordering}
use Prim.Native.Char.{code}
use Prim.Native.String.{String, [] as nil, ◌∷◌ as cons, ◌++◌ as append, compare}
use xisnove.Prelude.{
  ℕ, zero, suc, ◌+◌, len, Bool, true, false, not, ◌&&◌, ◌||◌, List, [], ◌∷◌, Option, none, some,
  any, ltb, ◌==◌, length, if◌then◌else◌,
}
use xisnove.Prelude.Int.{ℤ, pos, leb_ℤ}
use xisnove.Prelude.Text.{is_empty, is_space, trim_space, trim_dot}
use xisnove.Domain.Health.{Time}
use xisnove.Domain.Monitor.{Duration}
use xisnove.Agent.Controlplane.{
  ProbeDefinition, ProbeWork, ProbeResultInput, DnsProbeDefinition, protocol_error, dns_error,
  dns_mismatch,
}
use xisnove.Agent.Probe.Addresses.{Addr, invalid, unmap}
use xisnove.Agent.Probe.Policy.{
  NetworkError, Outcome, ok, failed, Policy, Resolver, plain, resolve_host,
}
use xisnove.Agent.Probe.Diagnostic.{
  diagnostic, classify_network_error, dns_error_code, unless_error, value_or_stop,
}
use xisnove.Agent.Probe.Steps.{
  Steps, pure, stop, update, require, pass, set_timings, millis, run, ◌>>=◌, ◌>>◌,
}

abbrev pub max_dns_observed_values : ℕ
max_dns_observed_values = 20

abbrev pub max_dns_observed_bytes : ℕ
max_dns_observed_bytes = 4096

-- The records of miekg/dns that the program reads; addresses are their texts.
pub data Record : Type 0 where
  a aaaa cname ns : String → Record
  mx : ℕ → String → Record
  txt : List String → Record
  srv : ℕ → ℕ → ℕ → String → Record
  other : Record

-- dns.TypeA and the others
abbrev pub type_a : ℕ
type_a = 1

abbrev pub type_ns : ℕ
type_ns = 2

abbrev pub type_cname : ℕ
type_cname = 5

abbrev pub type_mx : ℕ
type_mx = 15

abbrev pub type_txt : ℕ
type_txt = 16

abbrev pub type_aaaa : ℕ
type_aaaa = 28

abbrev pub type_srv : ℕ
type_srv = 33

pub record Response : Type 0 where
  pub truncated : Bool
  pub rcode : ℕ
  pub answer : List Record

-- What the outside answers to one Execute.
pub record DnsOutside : Type 0 where
  pub id : String
  pub started : Time
  pub finished : Time
  pub parse_addr : String → Option Addr
  pub addr_text : Addr → String
  pub to_lower : String → String
  pub decimal : ℕ → String
  -- net.SplitHostPort, and strconv.ParseUint with 16 bits
  pub split_host_port : String → Option (String × String)
  pub parse_port : String → Option ℕ
  -- /etc/resolv.conf: its servers and its port
  pub resolv_conf : Option (List String × String)
  pub string_to_type : String → Option ℕ
  pub fqdn : String → String
  pub resolver : Resolver
  -- exchangeDNS, over TCP or not, with an address and a port, for a name and a type
  pub exchange : Bool → Addr → ℕ → String → ℕ → Outcome Response
  pub exchange_time : Duration
  pub rcode_text : ℕ → String

-- strings.Join
unfoldable pub join : String → List String → String
join separator [] = ""
join separator (v ∷ []) = v
join separator (v ∷ w ∷ rest) = append v (append separator (join separator (w ∷ rest)))

-- strings.Fields, behind the part of a word
unfoldable pub fields_after : String → String → List String
fields_after word nil = if is_empty word then [] else word ∷ []
fields_after word (cons c s) =
    let next = fields_after "" s in
    let longer = fields_after (append word (cons c nil)) s in
    if is_space (code c) then (if is_empty word then next else word ∷ next) else longer

-- slices.Sort, as insertion into a sorted list
unfoldable pub insert_text : String → List String → List String
insert_text v [] = v ∷ []
insert_text v (w ∷ rest) =
    let later = insert_text v rest in
    elim (compare w v) [ Ordering.lt ↦ w ∷ later | _ ↦ v ∷ w ∷ rest ]

unfoldable pub sort_texts : List String → List String
unfolding insert_text
sort_texts [] = []
sort_texts (v ∷ rest) = insert_text v (sort_texts rest)

-- slices.Compact
unfoldable pub compact : List String → List String
compact [] = []
compact (v ∷ []) = v ∷ []
compact (v ∷ w ∷ rest) = let later = compact (w ∷ rest) in if str_eq v w then later else v ∷ later

unfoldable pub contains_all : List String → List String → Bool
contains_all values [] = true
contains_all values (wanted ∷ rest) = any (λ v. str_eq v wanted) values && contains_all values rest

-- The loop of boundDNSValues, behind a number of values with a number of bytes.
unfoldable pub bound_after : ℕ → ℕ → List String → List String
bound_after count total [] = []
bound_after count total (v ∷ rest) =
    let later = bound_after (suc count) (total + len v) rest in
    if count == max_dns_observed_values || ltb max_dns_observed_bytes (total + len v)
    then []
    else v ∷ later

unfoldable pub bound_dns_values : List String → List String
unfolding bound_after
bound_dns_values values = bound_after 0 0 values
