-- ===== src/Domain/Health.antt =====
-- internal/domain/health.go: the health of a monitor at one location, and its rollup.
-- A `time.Time` is the number of nanoseconds since Go's zero time, so `UTC()` is the identity.
pub mod Streaks
pub mod Rollup
use text.Mathlib.Text.{◌==◌ as str_eq}
use xisnove.Prelude.{
  ℕ, suc, ◌+◌, ◌%◌, ◌^◌, String, Bool, true, false, List, [], ◌∷◌, leb, ◌==◌, if◌then◌else◌, length,
}
use xisnove.Prelude.Int.{ℤ, pos}

abbrev pub Time : Type 0
Time = ℤ

abbrev pub zero_time : Time
zero_time = pos 0

-- A string type: `other` is a value that is none of the constants.
pub data HealthState : Type 0 where
  pending up down degraded unknown : HealthState
  other : String → HealthState

abbrev pub state_eq : HealthState → HealthState → Bool
state_eq pending pending = true
state_eq up up = true
state_eq down down = true
state_eq degraded degraded = true
state_eq unknown unknown = true
state_eq (other a) (other b) = str_eq a b
state_eq _ _ = false

pub record Thresholds : Type 0 where
  pub failures : ℕ
  pub recoveries : ℕ

pub record ProbeObservation : Type 0 where
  pub passed : Bool
  pub at : Time

pub record LocationHealth : Type 0 where
  pub monitor_id : String
  pub location_id : String
  pub state : HealthState
  pub consecutive_failures : ℕ
  pub consecutive_successes : ℕ
  pub last_observed_at : Time
  pub last_transition_at : Time
  pub stale_at : Time

pub record MonitorHealth : Type 0 where
  pub monitor_id : String
  pub state : HealthState
  pub last_transition_at : Time

-- The counters are uint16.
abbrev pub u16 : ℕ → ℕ
u16 n = n % 2 ^ 16

-- The branch on `observation.Passed`: the counters and the state.
count_probe : LocationHealth → Bool → Thresholds → LocationHealth
count_probe health true t =
    let successes = u16 (health.consecutive_successes + 1) in
    record health {
      consecutive_successes = successes;
      consecutive_failures = 0;
      state = if leb t.recoveries successes then up else health.state;
    }
count_probe health false t =
    let failures = u16 (health.consecutive_failures + 1) in
    record health {
      consecutive_failures = failures;
      consecutive_successes = 0;
      state = if leb t.failures failures then down else health.state;
    }

unfoldable pub apply_probe : LocationHealth → ProbeObservation → Thresholds → LocationHealth
unfolding count_probe
apply_probe health observation t =
    let counted = count_probe health observation.passed t in
    let observed = record counted { last_observed_at = observation.at } in
    if state_eq observed.state health.state
    then observed
    else record observed { last_transition_at = observation.at }

-- The loop of `RollupRequired` and the two tests behind it; `n` is `len(locations)`.
rollup_from : ℕ → ℕ → ℕ → List LocationHealth → HealthState
rollup_from n ups downs [] = if ups == n then up else if downs == n then down else degraded
rollup_from n ups downs (location ∷ rest) = elim location.state [
  | unknown ↦ unknown
  | pending ↦ unknown
  | up ↦ rollup_from n (ups + 1) downs rest
  | down ↦ rollup_from n ups (downs + 1) rest
  | degraded ↦ degraded
  | other s ↦ unknown
]

unfoldable pub rollup_required : List LocationHealth → HealthState
unfolding rollup_from
rollup_required [] = unknown
rollup_required (location ∷ rest) = rollup_from (suc (length rest)) 0 0 (location ∷ rest)
