-- ===== src/Agent/Probe/Steps.antt =====
-- What the functions Execute of agent/probe share: they fill in a result, step by step, and each step may
-- finish it early, as `return finish()` does.
pub mod Rules
pub mod Fits
use xisnove.Prelude.{ℕ, String, Bool, true, false, Option, none, some, if◌then◌else◌}
use xisnove.Prelude.Int.{ℤ, pos, ◌-ℤ◌, leb_ℤ, quot, saturate}
use xisnove.Domain.Health.{Time}
use xisnove.Domain.Monitor.{Duration}
use xisnove.Agent.Controlplane.{
  ProbeResultInput, ProbeWork, ProtocolTimings, ProbeResultInputErrorCode, passed, failed, empty,
  protocol_error,
}

abbrev pub Steps : Type 0 → Type 0
Steps A = ProbeResultInput → Option A × ProbeResultInput

module _ {A B : Type 0} where
  abbrev pub continue_from :
      Option A × ProbeResultInput → (A → Steps B) → Option B × ProbeResultInput
  continue_from (none, result) f = (none, result)
  continue_from (some a, result) f = f a result

  infixl 5 ◌>>=◌ ◌>>◌
  unfoldable pub ◌>>=◌ : Steps A → (A → Steps B) → Steps B
  s >>= f = λ result. continue_from (s result) f

  abbrev pub ◌>>◌ : Steps A → Steps B → Steps B
  s >> t = s >>= λ _. t

module _ {A : Type 0} where
  abbrev pub pure : A → Steps A
  pure a result = (some a, result)

  -- result.ErrorCode = code; result.DiagnosticSample = sample; return finish()
  abbrev pub stop : ProbeResultInputErrorCode → String → Steps A
  stop code sample result = (none, record result { error_code = code; diagnostic_sample = sample })

unfoldable pub update : (ProbeResultInput → ProbeResultInput) → Steps (Unit {0})
update f result = (some tt, f result)

unfoldable pub require : Bool → ProbeResultInputErrorCode → String → Steps (Unit {0})
require test code sample = if test then pure tt else stop code sample

-- max(0, d.Milliseconds()) for the Duration between two times, which saturates
unfoldable pub millis : Duration → ℤ
unfolding saturate
millis d = let m = quot (saturate d) (pos 1_000_000) in if leb_ℤ m (pos 0) then pos 0 else m

abbrev no_timings : ProtocolTimings
no_timings = record {
  dns_millis = none;
  connect_millis = none;
  tls_millis = none;
  first_byte_millis = none;
}

-- The result that Execute begins with.
unfoldable pub begin : String → Time → ProbeWork → ProbeResultInput
begin id now work = record {
  result_id = id;
  run_id = work.run_id;
  lease_token = work.lease_token;
  started_at = now;
  finished_at = pos 0;
  outcome = failed;
  error_code = protocol_error;
  latency_millis = pos 0;
  observed_status = pos 0;
  body_assertion_passed = false;
  diagnostic_sample = "";
  observed_values = none;
  protocol_timings = some no_timings;
  tls_not_after = none;
}

-- The closure `finish`.
unfoldable pub finish : Time → ProbeResultInput → ProbeResultInput
unfolding millis
finish now result = record result {
  finished_at = now;
  latency_millis = millis (now -ℤ result.started_at);
}

unfoldable pub pass : Steps (Unit {0})
unfolding update
pass = update λ result. record result { outcome = passed; error_code = empty }

abbrev pub timings_of : Option ProtocolTimings → ProtocolTimings
timings_of none = no_timings
timings_of (some t) = t

-- `timings` is the record that the result points to.
unfoldable pub set_timings : (ProtocolTimings → ProtocolTimings) → Steps (Unit {0})
unfolding update
set_timings f =
    update
      λ result. record result { protocol_timings = some (f (timings_of result.protocol_timings)) }

-- The body of Execute, from the beginning to `finish`.
unfoldable pub run : String → Time → Time → ProbeWork → Steps (Unit {0}) → ProbeResultInput
unfolding begin finish
run id started finished work steps = finish finished (steps (begin id started work)).1
