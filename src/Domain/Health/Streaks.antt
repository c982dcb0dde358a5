-- ===== src/Domain/Health/Streaks.antt =====
-- How `ApplyProbe` of internal/domain/health.go counts, and when it changes the state.
use xisnove.Prelude.{
  ℕ, suc, ◌%◌, ◌^◌, ◌≤◌, ◌<◌, ◌≡◌, ◌≢◌, ◌⊎◌, inl, inr, Bool, true, false, List, [], ◌∷◌, arith,
  if◌then◌else◌, length, all, not,
}
use xisnove.Domain.Health.{up, down, Thresholds, ProbeObservation, LocationHealth, u16, apply_probe}

-- A history is a list of observations, the newest first.
unfoldable pub replay : Thresholds → LocationHealth → List ProbeObservation → LocationHealth
replay t health [] = health
replay t health (o ∷ older) = apply_probe (replay t health older) o t

-- How many of the newest observations in a row had this outcome.
unfoldable pub streak : Bool → List ProbeObservation → ℕ
streak outcome [] = 0
streak true (o ∷ older) = let rest = streak true older in if o.passed then suc rest else 0
streak false (o ∷ older) = let rest = streak false older in if o.passed then 0 else suc rest

module _ (t : Thresholds) (health : LocationHealth) where
  failures-streak :
      (obs : List ProbeObservation)
      → health.consecutive_failures ≡ 0
      → (replay t health obs).consecutive_failures ≡ u16 (streak false obs)
  unfolding replay streak apply_probe
  failures-streak [] z = omega arith
  failures-streak (o ∷ older) z = ground (arith, failures-streak older z)

  successes-streak :
      (obs : List ProbeObservation)
      → health.consecutive_successes ≡ 0
      → (replay t health obs).consecutive_successes ≡ u16 (streak true obs)
  unfolding replay streak apply_probe
  successes-streak [] z = omega arith
  successes-streak (o ∷ older) z = ground (arith, successes-streak older z)

-- From fresh counters, whatever the history, each counter is the length modulo 2^16 of the newest
-- run of observations with its outcome.
counters-streak :
    (t : Thresholds) (health : LocationHealth) (obs : List ProbeObservation)
    → health.consecutive_failures ≡ 0
    → health.consecutive_successes ≡ 0
    → ((replay t health obs).consecutive_failures ≡ streak false obs % 2 ^ 16)
      × ((replay t health obs).consecutive_successes ≡ streak true obs % 2 ^ 16)
counters-streak t health obs f s = (failures-streak t health obs f, successes-streak t health obs s)

-- What holds of a location between two observations: at most one counter is not 0, and a counter
-- that has reached its threshold shows in the state.
pub record IsCounted (t : Thresholds) (health : LocationHealth) : Type 0 where
  pub exclusive : (health.consecutive_failures ≡ 0) ⊎ (health.consecutive_successes ≡ 0)
  pub failed : t.failures ≤ health.consecutive_failures → health.state ≡ down
  pub recovered : t.recoveries ≤ health.consecutive_successes → health.state ≡ up

pub record IsPositive (t : Thresholds) : Type 0 where
  pub failures : 0 < t.failures
  pub failures_uint16 : t.failures < 2 ^ 16
  pub recoveries : 0 < t.recoveries
  pub recoveries_uint16 : t.recoveries < 2 ^ 16

apply_probe-IsCounted :
    (t : Thresholds) (health : LocationHealth) (o : ProbeObservation)
    → IsPositive t
    → IsCounted t health
    → IsCounted t (apply_probe health o t)
unfolding apply_probe
apply_probe-IsCounted t health o p h = ground arith

-- Every history keeps the invariant: with positive uint16 thresholds and from a location that meets
-- it, at most one counter is not 0, and a counter at its threshold shows in the state.
replay-IsCounted :
    (t : Thresholds) (health : LocationHealth) (obs : List ProbeObservation)
    → IsPositive t
    → IsCounted t health
    → IsCounted t (replay t health obs)
unfolding replay
replay-IsCounted t health [] p h = h
replay-IsCounted t health (o ∷ older) p h =
    apply_probe-IsCounted t (replay t health older) o p (replay-IsCounted t health older p h)

abbrev IsFailing : ProbeObservation → Type 0
IsFailing o = o.passed ≡ false

-- One failing probe: a location that is down stays down, any other counts one more.
failing_step :
    (t : Thresholds) (health : LocationHealth) (o : ProbeObservation)
    → IsPositive t
    → IsCounted t health
    → o.passed ≡ false
    → ((apply_probe health o t).state ≡ down)
      ⊎ ((apply_probe health o t).consecutive_failures ≡ suc health.consecutive_failures)
unfolding apply_probe
failing_step t health o p h f = ground arith

passing_step :
    (t : Thresholds) (health : LocationHealth) (o : ProbeObservation)
    → IsPositive t
    → IsCounted t health
    → o.passed ≡ true
    → ((apply_probe health o t).state ≡ up)
      ⊎ ((apply_probe health o t).consecutive_successes ≡ suc health.consecutive_successes)
unfolding apply_probe
passing_step t health o p h f = ground arith

failing_stays :
    (t : Thresholds) (health : LocationHealth) (o : ProbeObservation)
    → o.passed ≡ false
    → health.state ≡ down
    → (apply_probe health o t).state ≡ down
unfolding apply_probe
failing_stays t health o f d = ground arith

passing_stays :
    (t : Thresholds) (health : LocationHealth) (o : ProbeObservation)
    → o.passed ≡ true
    → health.state ≡ up
    → (apply_probe health o t).state ≡ up
unfolding apply_probe
passing_stays t health o f d = ground arith

module _ (t : Thresholds) (health : LocationHealth) (p : IsPositive t)
    (h : IsCounted t health) where
  failing_run :
      (obs : List ProbeObservation)
      → all (λ o. not o.passed) obs ≡ true
      → ((replay t health obs).state ≡ down)
        ⊎ (length obs ≤ (replay t health obs).consecutive_failures)
  unfolding replay
  failing_run [] a = inr (omega arith)
  failing_run (o ∷ older) a =
      let now = replay t health older in
      ground (
        arith,
        failing_run older,
        failing_step t now o p (replay-IsCounted t health older p h),
        failing_stays t now o,
      )

  passing_run :
      (obs : List ProbeObservation)
      → all (λ o. o.passed) obs ≡ true
      → ((replay t health obs).state ≡ up)
        ⊎ (length obs ≤ (replay t health obs).consecutive_successes)
  unfolding replay
  passing_run [] a = inr (omega arith)
  passing_run (o ∷ older) a =
      let now = replay t health older in
      ground (
        arith,
        passing_run older,
        passing_step t now o p (replay-IsCounted t health older p h),
        passing_stays t now o,
      )

-- With positive thresholds that are uint16, from a well-counted health, a run of failing probes at
-- least as long as the failure threshold leaves the location down, whatever its length and although
-- the counter is a uint16.
pub down_after_failures :
    (t : Thresholds) (health : LocationHealth) (obs : List ProbeObservation)
    → IsPositive t
    → IsCounted t health
    → all (λ o. not o.passed) obs ≡ true
    → t.failures ≤ length obs
    → (replay t health obs).state ≡ down
down_after_failures t health obs p h a n =
    ground (arith, failing_run t health p h obs a, replay-IsCounted t health obs p h)

-- From a well-counted health, a run of passing probes at least as long as the recovery threshold
-- leaves the location up, whatever its length and although the counter is a uint16.
up_after_successes :
    (t : Thresholds) (health : LocationHealth) (obs : List ProbeObservation)
    → IsPositive t
    → IsCounted t health
    → all (λ o. o.passed) obs ≡ true
    → t.recoveries ≤ length obs
    → (replay t health obs).state ≡ up
up_after_successes t health obs p h a n =
    ground (arith, passing_run t health p h obs a, replay-IsCounted t health obs p h)

-- What a probe that changes the state shows of itself and of the counters after it.
changed_by :
    (t : Thresholds) (health : LocationHealth) (o : ProbeObservation)
    → (apply_probe health o t).state ≢ health.state
    → ((o.passed ≡ false)
        × (t.failures ≤ (apply_probe health o t).consecutive_failures)
        × ((apply_probe health o t).state ≡ down)
        × ((apply_probe health o t).last_transition_at ≡ o.at))
      ⊎ ((o.passed ≡ true)
          × (t.recoveries ≤ (apply_probe health o t).consecutive_successes)
          × ((apply_probe health o t).state ≡ up)
          × ((apply_probe health o t).last_transition_at ≡ o.at))
unfolding apply_probe
changed_by t health o c = ground arith

-- A probe that changes the state from fresh counters was justified: it either failed, and ended a
-- run of at least `failures` failing probes, and the location went down, or it passed, and ended a
-- run of at least `recoveries` passing probes, and the location went up. The transition time is then
-- the time of that probe.
pub transition_justified :
    (t : Thresholds) (health : LocationHealth) (o : ProbeObservation)
    (older : List ProbeObservation)
    → health.consecutive_failures ≡ 0
    → health.consecutive_successes ≡ 0
    → (replay t health (o ∷ older)).state ≢ (replay t health older).state
    → ((o.passed ≡ false)
        × (t.failures ≤ streak false (o ∷ older))
        × ((replay t health (o ∷ older)).state ≡ down)
        × ((replay t health (o ∷ older)).last_transition_at ≡ o.at))
      ⊎ ((o.passed ≡ true)
          × (t.recoveries ≤ streak true (o ∷ older))
          × ((replay t health (o ∷ older)).state ≡ up)
          × ((replay t health (o ∷ older)).last_transition_at ≡ o.at))
unfolding replay
transition_justified t health o older f s c =
    let now = replay t health older in
    let (failures, successes) = counters-streak t health (o ∷ older) f s in
    elim (changed_by t now o c) [
      | inl (e, n, d, at) ↦ inl (e, omega (arith, n, failures), d, at)
      | inr (e, n, u, at) ↦ inr (e, omega (arith, n, successes), u, at)
    ]
