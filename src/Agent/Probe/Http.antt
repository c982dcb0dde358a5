-- ===== src/Agent/Probe/Http.antt =====
-- agent/probe/http.go: the executor of HTTP probes. net/http sends the request and follows redirects; it
-- is given `check_redirect` and `dial_context`. The trace is what its callbacks have measured. The
-- configuration of TLS is left to crypto/tls.
pub mod Expected
pub mod Evidence
pub mod Reach
use text.Mathlib.Text.{◌==◌ as str_eq}
use xisnove.Prelude.{
  ℕ, String, Bool, true, false, not, ◌&&◌, List, [], ◌∷◌, Option, none, some, any, all, take,
  length, if◌then◌else◌,
}
use xisnove.Prelude.Int.{ℤ, pos, pos_part, ◌+ℤ◌, leb_ℤ, ltb_ℤ, i64}
use xisnove.Prelude.Text.{trim_dot}
use xisnove.Domain.Health.{Time}
use xisnove.Domain.Monitor.{Duration}
use xisnove.Agent.Controlplane.{
  ProbeWork, ProbeResultInput, HttpProbeDefinition, StatusRange, protocol_error, target_denied,
  tls_expiring, response_too_large, status_mismatch, body_mismatch,
}
use xisnove.Agent.Probe.Addresses.{Addr, unmap}
use xisnove.Agent.Probe.Policy.{
  NetworkError, Outcome, ok, failed, Policy, Resolver, Url, plain, validate_address, validate_url,
  resolve_host,
}
use xisnove.Agent.Probe.Diagnostic.{diagnostic, classify_network_error, unless_error, value_or_stop}
use xisnove.Agent.Probe.Steps.{
  Steps, pure, stop, update, require, pass, set_timings, millis, run, ◌>>=◌, ◌>>◌,
}
use xisnove.Agent.Probe.Tcp.{contains_bytes, minimum_remaining}

-- What CheckRedirect returns: nil, http.ErrUseLastResponse, or another error.
pub data Redirect : Type 0 where
  follow use_last : Redirect
  refuse : NetworkError → Redirect

-- A response: its status and the times of its certificates.
pub record Page : Type 0 where
  pub status : ℤ
  pub certificates : List Time

pub record Trace : Type 0 where
  pub dns : Option Duration
  pub connect : Option Duration
  pub tls : Option Duration
  pub first_byte : Option Duration

-- What the outside answers to one Execute.
pub record HttpOutside : Type 0 where
  pub id : String
  pub started : Time
  pub finished : Time
  pub parse_addr : String → Option Addr
  pub resolver : Resolver
  pub parse_url : String → Option Url
  pub dial : Addr → String → Option NetworkError
  -- http.NewRequestWithContext
  pub request_error : HttpProbeDefinition → Option NetworkError
  -- client.Do
  pub send :
      (Url → ℕ → Redirect)
      → (String → String → Outcome (Option Addr))
      → HttpProbeDefinition
      → Outcome Page
  pub trace : Trace
  -- io.ReadAll behind a limit
  pub read_body : ℤ → Outcome (List ℕ)
  pub until : Time → Duration
  pub text_of : List ℕ → String
  pub bytes_of : String → List ℕ

unfoldable pub status_matches : ℤ → List StatusRange → Bool
status_matches status expected =
    any (λ (r : StatusRange). leb_ℤ r.minimum status && leb_ℤ status r.maximum) expected

-- The loops are over the texts, as bytes.
unfoldable pub body_matches : List ℕ → List (List ℕ) → List (List ℕ) → Bool
body_matches body contains excludes =
    all (contains_bytes body) contains
    && all (λ excluded. not (contains_bytes body excluded)) excludes

abbrev pub judge : Outcome (Unit {0}) → Redirect → Redirect
judge (ok u) next = next
judge (failed e) next = refuse e

abbrev pub literal_verdict : Policy → Option Addr → Redirect
literal_verdict p none = follow
literal_verdict p (some a) = judge (validate_address p.allowed_private (unmap a)) follow

module _ (outside : HttpOutside) where
  -- netipFromHost, and the closure CheckRedirect; `via` is the number of requests made.
  unfoldable pub check_redirect : Policy → Bool → Url → ℕ → Redirect
  check_redirect p follow_redirects target via =
      if not follow_redirects
      then use_last
      else if ltb_ℤ p.max_redirects (pos via)
      then refuse (plain "redirect limit exceeded")
      else judge (validate_url target)
          (literal_verdict p (outside.parse_addr (trim_dot target.hostname)))

  unfoldable pub dialled :
      Addr → Option NetworkError → (NetworkError → Outcome (Option Addr)) → Outcome (Option Addr)
  dialled a none next = ok (some a)
  dialled a (some e) next = next e

  abbrev pub last_result : Option NetworkError → Outcome (Option Addr)
  last_result none = ok none
  last_result (some e) = failed e

  -- The loop of DialContext; `ok none` is no connection and no error.
  unfoldable pub dial_each : String → Option NetworkError → List Addr → Outcome (Option Addr)
  unfolding dialled
  dial_each port last [] = last_result last
  dial_each port last (a ∷ rest) = dialled a (outside.dial a port) λ e. dial_each port (some e) rest

  unfoldable pub resolved_first : Outcome (List Addr) → String → Outcome (Option Addr)
  unfolding dial_each
  resolved_first (failed e) port = failed e
  resolved_first (ok addresses) port = dial_each port none addresses

  unfoldable pub dial_context : Policy → String → String → Outcome (Option Addr)
  unfolding resolved_first
  dial_context p host port =
      resolved_first (resolve_host outside.parse_addr outside.resolver p host) port

  abbrev pub measured : Option Duration → Option ℤ
  measured none = none
  measured (some d) = some (millis d)

  abbrev pub is_http : Option String → Bool
  is_http none = false
  is_http (some kind) = str_eq kind "http"

  abbrev pub http_definition : Option HttpProbeDefinition → Steps HttpProbeDefinition
  http_definition none = stop protocol_error "invalid HTTP probe"
  http_definition (some d) = pure d

  abbrev pub is_allowed_url : Option Url → Bool
  is_allowed_url none = false
  is_allowed_url (some url) = elim (validate_url url) [ ok u ↦ true | failed e ↦ false ]

  abbrev pub outlives : Option ℤ → Time → Bool
  outlives none not_after = true
  outlives (some seconds) not_after =
      not (ltb_ℤ (outside.until not_after) (minimum_remaining seconds))

  unfoldable pub certificate_checks : Option ℤ → List Time → Steps (Unit {0})
  certificate_checks minimum [] = pure tt
  certificate_checks minimum (not_after ∷ others) = do
    update λ result. record result { tls_not_after = some not_after }
    require (outlives minimum not_after) tls_expiring "peer certificate expires too soon"

  abbrev pub texts_of : List String → List (List ℕ)
  texts_of [] = []
  texts_of (t ∷ rest) = outside.bytes_of t ∷ texts_of rest

  abbrev pub body_passed : HttpProbeDefinition → List ℕ → Bool
  body_passed d body =
      body_matches body (texts_of d.body_contains) (texts_of d.body_does_not_contain)

  unfoldable pub page_checks : Policy → HttpProbeDefinition → Page → Steps (Unit {0})
  page_checks p d page = do
    update λ result. record result { observed_status = page.status }
    certificate_checks d.tls_minimum_remaining_seconds page.certificates
    body ←
        value_or_stop (λ e. protocol_error)
          (outside.read_body (i64 (p.max_response_bytes +ℤ pos 1)))
    require (leb_ℤ (pos (length body)) p.max_response_bytes) response_too_large
        (diagnostic (outside.text_of (take (pos_part p.max_response_bytes) body)))
    update λ result. record result { body_assertion_passed = body_passed d body }
    require (status_matches page.status d.expected_status) status_mismatch
        (diagnostic (outside.text_of body))
    require (body_passed d body) body_mismatch (diagnostic (outside.text_of body))

  unfoldable pub http_checks : Policy → ProbeWork → Steps (Unit {0})
  http_checks p work = do
    require (not (leb_ℤ work.timeout_millis (pos 0))) protocol_error "invalid timeout"
    require (is_http work.probe.discriminator) protocol_error "invalid HTTP probe"
    d ← http_definition work.probe.as_http
    require (is_allowed_url (outside.parse_url d.url)) target_denied "target URL denied"
    unless_error (λ e. protocol_error) (outside.request_error d)
    set_timings λ t. record {
      dns_millis = measured outside.trace.dns;
      connect_millis = measured outside.trace.connect;
      tls_millis = measured outside.trace.tls;
      first_byte_millis = measured outside.trace.first_byte;
    }
    page ←
        value_or_stop classify_network_error
          (outside.send (check_redirect p d.follow_redirects) (dial_context p) d)
    page_checks p d page

  unfoldable pub http_steps : Policy → ProbeWork → Steps (Unit {0})
  unfolding http_checks
  http_steps p work = do http_checks p work; pass

  unfoldable pub execute_http : Policy → ProbeWork → ProbeResultInput
  unfolding http_steps run
  execute_http p work = run outside.id outside.started outside.finished work (http_steps p work)
