-- ===== src/Agent/Probe/Tcp.antt =====
-- agent/probe/tcp.go, without the configuration of TLS, which is passed to crypto/tls. The connection
-- and the handshake are what their calls answer.
pub mod Contains
pub mod Reading
pub mod Evidence
pub mod Fits
use text.Mathlib.Text.{◌==◌ as str_eq}
use Prim.Native.String.{◌++◌ as append}
use xisnove.Prelude.{
  ℕ, zero, suc, ◌+◌, ◌-◌, String, Bool, true, false, not, ◌&&◌, ◌||◌, List, [], ◌∷◌, ◌++◌, Option,
  none, some, ltb, leb, ◌==◌, length, if◌then◌else◌,
}
use xisnove.Prelude.Int.{ℤ, pos, ◌*ℤ◌, leb_ℤ, ltb_ℤ, i64}
use xisnove.Prelude.Text.{is_empty, trim_dot}
use xisnove.Domain.Health.{Time}
use xisnove.Domain.Monitor.{Duration}
use xisnove.Agent.Controlplane.{
  ProbeDefinition, ProbeWork, ProbeResultInput, TcpProbeDefinition, protocol_error,
  tcp_expect_mismatch, tls_error, tls_expiring,
}
use xisnove.Agent.Probe.Addresses.{Addr}
use xisnove.Agent.Probe.Policy.{
  NetworkError, Outcome, ok, failed, Policy, Resolver, plain, resolve_host,
}
use xisnove.Agent.Probe.Diagnostic.{
  diagnostic, classify_network_error, tcp_io_error_code, unless_error, value_or_stop,
}
use xisnove.Agent.Probe.Steps.{
  Steps, pure, stop, update, require, pass, set_timings, millis, run, ◌>>=◌, ◌>>◌,
}

abbrev pub max_tcp_payload_bytes : ℕ
max_tcp_payload_bytes = 4096

-- What the outside answers to one Execute. `none` is an error that is nil.
pub record TcpOutside : Type 0 where
  pub id : String
  pub started : Time
  pub finished : Time
  pub parse_addr : String → Option Addr
  pub resolver : Resolver
  pub dial : Addr → ℤ → Option NetworkError
  pub connect_time : Duration
  pub set_deadline : Option NetworkError
  pub handshake : Option NetworkError
  pub handshake_time : Duration
  pub certificates : List Time
  pub until : Time → Duration
  pub write : List ℕ → Option NetworkError
  -- the n-th Read, into a buffer of a length
  pub read : ℕ → ℕ → List ℕ × Option NetworkError
  pub text_of : List ℕ → String

-- bytes.HasPrefix and bytes.Contains
abbrev pub has_prefix : List ℕ → List ℕ → Bool
has_prefix xs [] = true
has_prefix [] (p ∷ ps) = false
has_prefix (x ∷ xs) (p ∷ ps) = x == p && has_prefix xs ps

abbrev pub contains_bytes : List ℕ → List ℕ → Bool
contains_bytes [] sub = has_prefix [] sub
contains_bytes (x ∷ xs) sub = has_prefix (x ∷ xs) sub || contains_bytes xs sub

abbrev min_ℕ : ℕ → ℕ → ℕ
min_ℕ a b = if leb a b then a else b

abbrev pub is_some {ℓ} : {A : Type ℓ} → Option A → Bool
is_some none = false
is_some (some a) = true

pub record Observed : Type 0 where
  pub bytes : List ℕ
  pub error : Option NetworkError

-- The loop of readUntilExpected with fuel; `none` where the fuel ends first.
unfoldable pub read_until_expected :
    (ℕ → ℕ → List ℕ × Option NetworkError) → List ℕ → ℕ → ℕ → List ℕ → Option Observed
read_until_expected read expected zero n observed = none
read_until_expected read expected (suc fuel) n observed =
    let (got, error) = read n (min_ℕ 512 (max_tcp_payload_bytes - length observed)) in
    let rest = read_until_expected read expected fuel (suc n) (observed ++ got) in
    if not (ltb (length observed) max_tcp_payload_bytes)
    then some (record { bytes = observed; error = none })
    else if not (length got == 0) && contains_bytes (observed ++ got) expected
    then some (record { bytes = observed ++ got; error = none })
    else if is_some error
    then some (record { bytes = observed ++ got; error = error })
    else rest

abbrev last_error : Option NetworkError → NetworkError
last_error none = plain "no validated target addresses"
last_error (some e) = e

abbrev dialled : Addr → Option NetworkError → (NetworkError → Outcome Addr) → Outcome Addr
dialled a none next = ok a
dialled a (some e) next = next e

-- The loop of dialValidated: the first address that answers.
unfoldable pub dial_validated :
    (Addr → ℤ → Option NetworkError) → ℤ → Option NetworkError → List Addr → Outcome Addr
dial_validated dial port last [] =
    failed (record (last_error last) { text = append "dial target: " (last_error last).text })
dial_validated dial port last (a ∷ rest) =
    dialled a (dial a port) λ e. dial_validated dial port (some e) rest

-- TLSMinimumRemainingSeconds * time.Second
abbrev pub minimum_remaining : ℤ → Duration
minimum_remaining seconds = i64 (seconds *ℤ pos 1_000_000_000)

abbrev pub is_tcp_definition : TcpProbeDefinition → Bool
is_tcp_definition d =
    not (is_empty d.host)
    && not (leb_ℤ d.port (pos 0))
    && leb_ℤ d.port (pos 65535)
    && leb (length d.send) max_tcp_payload_bytes
    && leb (length d.expect) max_tcp_payload_bytes

abbrev pub accepted_definition : Option TcpProbeDefinition → Steps TcpProbeDefinition
accepted_definition none = stop protocol_error "invalid TCP probe"
accepted_definition (some d) =
    if is_tcp_definition d then pure d else stop protocol_error "invalid TCP probe"

abbrev pub is_kind : Option String → String → Bool
is_kind none kind = false
is_kind (some k) kind = str_eq k kind

unfoldable pub tcp_definition : ProbeDefinition → Steps TcpProbeDefinition
tcp_definition probe = do
  require (is_kind probe.discriminator "tcp") protocol_error "invalid TCP probe"
  accepted_definition probe.as_tcp

module _ (outside : TcpOutside) where
  abbrev pub certificate_steps : ℤ → List Time → Steps (Unit {0})
  certificate_steps seconds [] = stop tls_error "peer certificate is missing"
  certificate_steps seconds (not_after ∷ others) = do
    update λ result. record result { tls_not_after = some not_after }
    require (not (ltb_ℤ (outside.until not_after) (minimum_remaining seconds))) tls_expiring
        "peer certificate expires too soon"

  unfoldable pub tls_steps : Option ℤ → Steps (Unit {0})
  tls_steps none = pure tt
  tls_steps (some seconds) = do
    unless_error classify_network_error outside.handshake
    set_timings λ t. record t { tls_millis = some (millis outside.handshake_time) }
    certificate_steps seconds outside.certificates

  unfoldable pub send_steps : List ℕ → Steps (Unit {0})
  send_steps [] = pure tt
  send_steps (b ∷ bytes) = unless_error tcp_io_error_code (outside.write (b ∷ bytes))

  -- err != nil && !errors.Is(err, io.EOF)
  abbrev pub read_error : Option NetworkError → Option NetworkError
  read_error none = none
  read_error (some e) = if e.eof then none else some e

  unfoldable pub expect_observed : List ℕ → Option Observed → Steps (Unit {0})
  -- `none` is where the fuel of the loop ends first.
  expect_observed expect none = stop protocol_error "unread"
  expect_observed expect (some observed) = do
    unless_error tcp_io_error_code (read_error observed.error)
    require (contains_bytes observed.bytes expect) tcp_expect_mismatch
        (diagnostic (outside.text_of observed.bytes))

  unfoldable pub expect_steps : List ℕ → Steps (Unit {0})
  expect_steps [] = pure tt
  expect_steps (b ∷ bytes) =
      expect_observed (b ∷ bytes)
        (read_until_expected outside.read (b ∷ bytes) (suc max_tcp_payload_bytes) 0 [])

  unfoldable pub tcp_checks : Policy → ProbeWork → Steps (Unit {0})
  tcp_checks policy work = do
    require (not (leb_ℤ work.timeout_millis (pos 0))) protocol_error "invalid timeout"
    definition ← tcp_definition work.probe
    addresses ←
        value_or_stop classify_network_error
          (resolve_host outside.parse_addr outside.resolver policy (trim_dot definition.host))
    set_timings λ t. record t { connect_millis = some (millis outside.connect_time) }
    connected ←
        value_or_stop classify_network_error
          (dial_validated outside.dial definition.port none addresses)
    unless_error (λ e. protocol_error) outside.set_deadline
    tls_steps definition.tls_minimum_remaining_seconds
    send_steps definition.send
    expect_steps definition.expect

  unfoldable pub tcp_steps : Policy → ProbeWork → Steps (Unit {0})
  tcp_steps policy work = do tcp_checks policy work; pass

  unfoldable pub execute_tcp : Policy → ProbeWork → ProbeResultInput
  execute_tcp policy work =
      run outside.id outside.started outside.finished work (tcp_steps policy work)
