-- ===== src/Agent/Probe/Policy.antt =====
-- agent/probe/policy.go. netip.ParseAddr and the resolver are parameters. An error is what the tests of
-- the package see of it, and its text.
pub mod Reachable
pub mod Web
use text.Mathlib.Text.{◌==◌ as str_eq}
use Prim.Native.String.{◌++◌ as append}
use xisnove.Prelude.{
  ℕ, String, Bool, true, false, not, ◌&&◌, ◌||◌, List, [], ◌∷◌, Option, none, some, any,
  if◌then◌else◌,
}
use xisnove.Prelude.Int.{ℤ, pos, ◌*ℤ◌, leb_ℤ}
use xisnove.Prelude.Text.{is_empty, trim_dot}
use xisnove.Agent.Probe.Addresses.{
  Addr, Prefix, invalid, contains, unmap, is_valid, is_6, is_metadata, is_unspecified, is_multicast,
  is_link_local_unicast, is_loopback, is_private, is_global_unicast,
}

-- What `errors.Is` and `errors.As` find in an error.
pub record NetworkError : Type 0 where
  pub target_denied : Bool
  pub dns : Bool
  -- context.DeadlineExceeded or context.Canceled
  pub ended : Bool
  -- one of the four errors of certificates and TLS records
  pub tls : Bool
  -- a *net.OpError, with its Timeout()
  pub operation : Option Bool
  -- a net.Error whose Timeout() is true
  pub timeout : Bool
  pub eof : Bool
  pub text : String

pub data Outcome {ℓ} (A : Type ℓ) : Type ℓ where
  ok : A → Outcome A
  failed : NetworkError → Outcome A

-- errors.New(text)
abbrev pub plain : String → NetworkError
plain text = record {
  target_denied = false;
  dns = false;
  ended = false;
  tls = false;
  operation = none;
  timeout = false;
  eof = false;
  text = text;
}

-- fmt.Errorf("%w: …", ErrTargetDenied)
abbrev pub denied : String → NetworkError
denied what = record (plain (append "target denied: " what)) { target_denied = true }

-- fmt.Errorf("%w: …", ErrDNS), which hides what the resolver's error is.
abbrev pub unresolved : String → NetworkError
unresolved what = record (plain (append "DNS resolution failed: " what)) { dns = true }

abbrev pub Resolver : Type 0
Resolver = String → Outcome (List Addr)

pub record Policy : Type 0 where
  pub allowed_private : List Prefix
  pub max_response_bytes : ℤ
  pub max_redirects : ℤ
  pub resolver : Option Resolver

abbrev or_default : Option Resolver → Resolver → Resolver
or_default none default = default
or_default (some resolver) default = resolver

-- Policy.withDefaults; `default` is net.DefaultResolver.
unfoldable pub with_defaults : Resolver → Policy → Policy
with_defaults default p = record p {
  max_response_bytes =
      if leb_ℤ p.max_response_bytes (pos 0) then pos 65_536 else p.max_response_bytes;
  max_redirects = if leb_ℤ p.max_redirects (pos 0) then pos 3 else p.max_redirects;
  resolver = some (or_default p.resolver default);
}

unfoldable pub validate_address : List Prefix → Addr → Outcome (Unit {0})
validate_address allowed a =
    if not (is_valid a)
      || is_metadata a
      || is_unspecified a
      || is_multicast a
      || (is_6 a && is_link_local_unicast a)
    then failed (denied "prohibited address")
    else if is_loopback a || is_private a || is_link_local_unicast a
    then (if any (λ prefix. contains prefix a) allowed
        then ok tt
        else failed (denied "private address"))
    else if not (is_global_unicast a)
    then failed (denied "non-global address")
    else ok tt

abbrev prepend : Addr → Outcome (List Addr) → Outcome (List Addr)
prepend a (ok rest) = ok (a ∷ rest)
prepend a (failed e) = failed e

abbrev validated : Addr → Outcome (Unit {0}) → Outcome (List Addr) → Outcome (List Addr)
validated a (ok u) rest = prepend a rest
validated a (failed e) rest = failed e

-- The loop over the addresses: the first one that is refused ends it.
unfoldable pub validate_each : List Prefix → List Addr → Outcome (List Addr)
unfolding validate_address
validate_each allowed [] = ok []
validate_each allowed (a ∷ rest) =
    validated (unmap a) (validate_address allowed (unmap a)) (validate_each allowed rest)

abbrev resolved : List Prefix → Outcome (List Addr) → Outcome (List Addr)
unfolding validate_each
resolved allowed (failed e) = failed (unresolved e.text)
resolved allowed (ok []) = failed (unresolved "no addresses")
resolved allowed (ok (a ∷ rest)) = validate_each allowed (a ∷ rest)

abbrev literal_or : List Prefix → Option Addr → Outcome (List Addr) → Outcome (List Addr)
unfolding validate_address
literal_or allowed none looked_up = looked_up
literal_or allowed (some a) looked_up =
    validated (unmap a) (validate_address allowed (unmap a)) (ok [])

-- What url.Parse finds in a URL.
pub record Url : Type 0 where
  pub scheme : String
  pub hostname : String

-- validateURL, on a URL that is not nil.
unfoldable pub validate_url : Url → Outcome (Unit {0})
validate_url target =
    if (not (str_eq target.scheme "http") && not (str_eq target.scheme "https"))
      || is_empty target.hostname
    then failed (denied "only http and https targets are allowed")
    else ok tt

abbrev first_of : Outcome (List Addr) → Outcome Addr
first_of (failed e) = failed e
first_of (ok []) = ok invalid
first_of (ok (a ∷ rest)) = ok a

abbrev when_ok : Outcome (Unit {0}) → Outcome Addr → Outcome Addr
when_ok (failed e) next = failed e
when_ok (ok u) next = next

abbrev when_parsed : Option Url → (Url → Outcome Addr) → Outcome Addr
when_parsed none f = failed (denied "malformed URL")
when_parsed (some url) f = f url

module _ (parse_addr : String → Option Addr) (default : Resolver) where
  unfoldable pub resolve_host : Policy → String → Outcome (List Addr)
  unfolding literal_or resolved
  resolve_host p host =
      let name = trim_dot host in
      literal_or p.allowed_private (parse_addr name)
        (resolved p.allowed_private (or_default p.resolver default name))

  unfoldable pub validate_target : (String → Option Url) → Policy → String → Outcome Addr
  unfolding validate_url resolve_host
  validate_target parse_url p raw =
      when_parsed (parse_url raw)
        λ target. when_ok (validate_url target) (first_of (resolve_host p target.hostname))
