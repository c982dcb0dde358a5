-- ===== src/Tests/Domain.antt =====
-- The theorems on internal/domain at concrete inputs.
use mathlib.Core.List.{Perm, Permᴰ}
use Prim.{∣◌∣₁}
use xisnove.Prelude.{ℕ, ◌≤◌, ◌≡◌, refl, ◌≢◌, ◌⊎◌, inl, true, false, List, [], ◌∷◌, none, arith}
use xisnove.Prelude.Int.{pos}
use xisnove.Prelude.Text.{trim_space}
use xisnove.Result.{ok}
use xisnove.Domain.Health.{
  HealthState, pending, up, down, degraded, unknown, Thresholds, ProbeObservation, LocationHealth,
  apply_probe, rollup_required, zero_time,
}
use xisnove.Domain.Health.Streaks.{
  replay, streak, IsCounted, IsPositive, down_after_failures, transition_justified,
}
use xisnove.Domain.Health.Rollup.{rollup_rules, states, rollup_required-rules}
use xisnove.Domain.Incident.{Incident, critical}
use xisnove.Domain.Incident.Lifecycle.{
  Verdict, follow, alarm, alarm_of, IsLog, follow-alarm, follow-IsLog,
}
use xisnove.Domain.Agent.{
  AgentCapability, Agent, NewAgentParams, new_agent, validate_agent_capabilities,
}

abbrev two : Thresholds
two = record { failures = 2; recoveries = 3 }

abbrev pub fresh : LocationHealth
fresh = record {
  monitor_id = "m";
  location_id = "l";
  state = pending;
  consecutive_failures = 0;
  consecutive_successes = 0;
  last_observed_at = zero_time;
  last_transition_at = zero_time;
  stale_at = zero_time;
}

abbrev failing : ℕ → ProbeObservation
failing at = record { passed = false; at = pos at }

abbrev passing : ℕ → ProbeObservation
passing at = record { passed = true; at = pos at }

two-IsPositive : IsPositive two
two-IsPositive = record {
  failures = omega arith;
  failures_uint16 = omega arith;
  recoveries = omega arith;
  recoveries_uint16 = omega arith;
}

fresh-IsCounted : IsCounted two fresh
fresh-IsCounted = record {
  exclusive = inl refl;
  failed = λ h. absurd (omega (arith, h));
  recovered = λ h. absurd (omega (arith, h));
}

abbrev mixed : List ProbeObservation
mixed = failing 3 ∷ failing 2 ∷ passing 1 ∷ []

abbrev outage : List ProbeObservation
outage = failing 3 ∷ failing 2 ∷ failing 1 ∷ []

down_after_failures_example : (replay two fresh outage).state ≡ down
down_after_failures_example =
    down_after_failures two fresh outage two-IsPositive fresh-IsCounted refl (omega arith)

abbrev healthy : List ProbeObservation
healthy = passing 3 ∷ passing 2 ∷ passing 1 ∷ []

went_down : (replay two fresh mixed).state ≢ (replay two fresh (failing 2 ∷ passing 1 ∷ [])).state
unfolding replay apply_probe
went_down e = ground (arith, e)

transition_justified_example :
    ((false ≡ false)
      × (2 ≤ streak false mixed)
      × ((replay two fresh mixed).state ≡ down)
      × ((replay two fresh mixed).last_transition_at ≡ pos 3))
    ⊎ ((false ≡ true)
        × (3 ≤ streak true mixed)
        × ((replay two fresh mixed).state ≡ up)
        × ((replay two fresh mixed).last_transition_at ≡ pos 3))
transition_justified_example =
    transition_justified two fresh (failing 3) (failing 2 ∷ passing 1 ∷ []) refl refl went_down

abbrev at_state : HealthState → LocationHealth
at_state s = record fresh { state = s }

abbrev two_up : List LocationHealth
two_up = at_state up ∷ at_state down ∷ at_state unknown ∷ []

rollup_required-rules_example : rollup_required two_up ≡ rollup_rules (states two_up)
rollup_required-rules_example = rollup_required-rules two_up refl

abbrev two_up_swapped : List LocationHealth
two_up_swapped = at_state down ∷ at_state up ∷ at_state unknown ∷ []

swapped : Perm two_up two_up_swapped
swapped = ∣ Permᴰ.swap refl refl ∣₁

abbrev verdict : HealthState → ℕ → Verdict
verdict s at = record { health = s; at = pos at; new_id = "i" }

abbrev verdicts : List Verdict
verdicts =
    verdict up 1 ∷ verdict down 2 ∷ verdict degraded 3 ∷ verdict up 4 ∷ verdict unknown 5 ∷ []

follow-alarm_example : alarm (follow "m" none verdicts).0 ≡ alarm_of none verdicts
follow-alarm_example = follow-alarm "m" none verdicts tt

follow-IsLog_example : IsLog "m" none (follow "m" none verdicts).1
follow-IsLog_example = follow-IsLog "m" none verdicts tt

abbrev incident : Incident
incident = record {
  id = "i";
  monitor_id = "m";
  state = down;
  severity = critical;
  opened_at = pos 2;
  last_transition_at = pos 2;
  recovered_at = none;
}

abbrev params : NewAgentParams
params = record {
  id = "a";
  location_id = "l";
  name = " probe ";
  capabilities = AgentCapability.http ∷ AgentCapability.tcp ∷ [];
  credential_generation = 1;
  created_at = pos 7;
}

abbrev pub agent : Agent
agent = record {
  id = "a";
  location_id = "l";
  name = "probe";
  capabilities = AgentCapability.http ∷ AgentCapability.tcp ∷ [];
  credential_generation = 1;
  version = "";
  last_seen_at = zero_time;
  revoked_at = none;
  created_at = pos 7;
}

enrolled : new_agent params ≡ ok agent
unfolding new_agent validate_agent_capabilities trim_space
enrolled = refl
