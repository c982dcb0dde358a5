-- ===== src/Agent/Probe/Diagnostic.antt =====
-- agent/probe/http.go: `diagnostic` and `classifyNetworkError`; dns.go and tcp.go: the error codes. A text
-- is one that strings.ToValidUTF8 has made valid.
pub mod Bounds
use Prim.Native.Char.{Char, char, code}
use Prim.Native.String.{String, [], ◌∷◌}
use xisnove.Prelude.{
  ℕ, ◌+◌, len, Bool, true, false, ◌||◌, ◌&&◌, Option, none, some, ltb, leb, if◌then◌else◌,
}
use xisnove.Agent.Controlplane.{
  ProbeResultInputErrorCode, connect_error, dns_error, protocol_error, target_denied, timeout,
  tls_error,
}
use xisnove.Agent.Probe.Policy.{NetworkError, Outcome, ok, failed}
use xisnove.Agent.Probe.Steps.{Steps, pure, stop}

-- unicode.IsControl
abbrev is_control : ℕ → Bool
is_control c = ltb c 32 || (leb 127 c && leb c 159)

abbrev visible : Char → Char
visible c = if is_control (code c) then char 32 tt else c

-- The loop over the runes, with the length of what the builder holds.
unfoldable pub bounded_runes : ℕ → String → String
bounded_runes held [] = []
bounded_runes held (c ∷ s) =
    let size = len (visible c ∷ []) in
    let rest = bounded_runes (held + size) s in
    if ltb 512 (held + size) then [] else visible c ∷ rest

unfoldable pub diagnostic : String → String
unfolding bounded_runes
diagnostic value = bounded_runes 0 value

abbrev operation_code : Option Bool → ProbeResultInputErrorCode
operation_code none = protocol_error
operation_code (some true) = timeout
operation_code (some false) = connect_error

unfoldable pub classify_network_error : NetworkError → ProbeResultInputErrorCode
classify_network_error e =
    if e.target_denied
    then target_denied
    else if e.dns
    then dns_error
    else if e.ended
    then timeout
    else if e.tls
    then tls_error
    else operation_code e.operation

unfoldable pub dns_error_code : NetworkError → ProbeResultInputErrorCode
dns_error_code e = if e.ended || e.timeout then timeout else dns_error

unfoldable pub tcp_io_error_code : NetworkError → ProbeResultInputErrorCode
tcp_io_error_code e = if e.ended || e.timeout then timeout else protocol_error

-- if err != nil { result.ErrorCode = code; result.DiagnosticSample = diagnostic(err.Error()); return finish() }
unfoldable pub unless_error :
    (NetworkError → ProbeResultInputErrorCode) → Option NetworkError → Steps (Unit {0})
unfolding diagnostic
unless_error code none = pure tt
unless_error code (some e) = stop (code e) (diagnostic e.text)

unfoldable pub value_or_stop :
    {A : Type 0} → (NetworkError → ProbeResultInputErrorCode) → Outcome A → Steps A
unfolding diagnostic
value_or_stop code (ok a) = pure a
value_or_stop code (failed e) = stop (code e) (diagnostic e.text)
