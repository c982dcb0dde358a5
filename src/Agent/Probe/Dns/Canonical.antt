-- ===== src/Agent/Probe/Dns/Canonical.antt =====
-- agent/probe/dns.go: the canonical form of values.
use Prim.Native.String.{String, ◌++◌ as append}
use xisnove.Prelude.{
  ℕ, zero, suc, Bool, true, false, ◌||◌, List, [], ◌∷◌, Option, none, some, ◌==◌, if◌then◌else◌,
}
use xisnove.Prelude.Text.{trim_space, trim_dot}
use xisnove.Agent.Probe.Addresses.{Addr, unmap}
use xisnove.Agent.Probe.Dns.{
  Record, a, aaaa, cname, ns, mx, txt, srv, other, type_a, type_ns, type_cname, type_mx, type_txt,
  type_aaaa, type_srv, DnsOutside, join, fields_after, sort_texts, compact,
}

abbrev rename_at : (String → String) → ℕ → List String → List String
rename_at f n [] = []
rename_at f zero (v ∷ rest) = f v ∷ rest
rename_at f (suc n) (v ∷ rest) = v ∷ rename_at f n rest

abbrev longer_than : List String → ℕ → Bool
longer_than [] n = false
longer_than (v ∷ rest) zero = true
longer_than (v ∷ rest) (suc n) = longer_than rest n

abbrev kept : Bool → String → List String → List String
kept test value rest = if test then value ∷ rest else rest

module _ (outside : DnsOutside) where
  unfoldable pub canonical_dns_name : String → String
  canonical_dns_name value = outside.to_lower (trim_dot (trim_space value))

  unfoldable pub canonical_structured_name : String → ℕ → String
  canonical_structured_name value index =
      let fields = fields_after "" value in
      if longer_than fields index
      then join " " (rename_at canonical_dns_name index fields)
      else value

  numbered : List ℕ → String → String
  numbered [] name = canonical_dns_name name
  numbered (n ∷ rest) name = append (outside.decimal n) (append " " (numbered rest name))

  unfoldable pub canonical_dns_values : List Record → ℕ → List String
  unfolding numbered
  canonical_dns_values [] type = []
  canonical_dns_values (a text ∷ rest) type =
      kept (type == type_a) text (canonical_dns_values rest type)
  canonical_dns_values (aaaa text ∷ rest) type =
      kept (type == type_aaaa) text (canonical_dns_values rest type)
  canonical_dns_values (cname target ∷ rest) type =
      kept (type == type_cname) (canonical_dns_name target) (canonical_dns_values rest type)
  canonical_dns_values (mx preference name ∷ rest) type =
      kept (type == type_mx) (numbered (preference ∷ []) name) (canonical_dns_values rest type)
  canonical_dns_values (ns name ∷ rest) type =
      kept (type == type_ns) (canonical_dns_name name) (canonical_dns_values rest type)
  canonical_dns_values (txt texts ∷ rest) type =
      kept (type == type_txt) (join "" texts) (canonical_dns_values rest type)
  canonical_dns_values (srv priority weight port target ∷ rest) type =
      kept (type == type_srv) (numbered (priority ∷ weight ∷ port ∷ []) target)
        (canonical_dns_values rest type)
  canonical_dns_values (other ∷ rest) type = canonical_dns_values rest type

  abbrev pub address_text : Option Addr → String → String
  unfolding unmap
  address_text none value = value
  address_text (some address) value = outside.addr_text (unmap address)

  -- One round of the loop of canonicalExpectedValues.
  unfoldable pub canonical_expected : ℕ → String → String
  canonical_expected type raw =
      let value = trim_space raw in
      if type == type_a || type == type_aaaa
      then address_text (outside.parse_addr value) value
      else if type == type_cname || type == type_ns
      then canonical_dns_name value
      else if type == type_mx
      then canonical_structured_name value 1
      else if type == type_srv
      then canonical_structured_name value 3
      else value

  unfoldable pub each_expected : List String → ℕ → List String
  each_expected [] type = []
  each_expected (value ∷ rest) type = canonical_expected type value ∷ each_expected rest type

  unfoldable pub canonical_expected_values : List String → ℕ → List String
  unfolding each_expected
  canonical_expected_values values type = compact (sort_texts (each_expected values type))
