-- ===== src/Application/Results/Accepted.antt =====
-- What `validateResult` of internal/application/results.go accepts.
use mathlib.Core.Logic.{◌↔◌}
use text.Mathlib.TextEquality.{eq_iff}
use text.Mathlib.TextPositions.{eq_refl}
use xisnove.Prelude.{
  ℕ, ◌≤◌, ◌≡◌, refl, ◌⊎◌, Bool, true, false, List, some, String, len, length, arith, [], ◌∷◌, ◌++◌,
  not, ◌&&◌, ◌||◌, ltb, if◌then◌else◌, Option-cases, inl, inr,
}
use xisnove.Prelude.Int.{pos, ◌+ℤ◌, ◌-ℤ◌, ◌≤ℤ◌}
use xisnove.Prelude.Text.{is_empty}
use xisnove.Result.{Error, ok, err}
use xisnove.Domain.Health.{Time}
use xisnove.Application.Records.{RunStatus, available, leased, resolved, RunRecord}
use xisnove.Application.Results.{
  ProbeOutcome, passed, failed, other, is_leased, ProbeResultCommand, seconds, observed_bytes,
  invalid_fields, validate_result, is_nil, field_if, inactive_lease, outside_window, is_negative,
  is_outcome,
}

-- A result that the run's holder may report at this time: within 30 seconds of the lease's expiry, of a
-- probe that began no earlier than 30 seconds before its schedule, in the stated limits.
pub record IsAcceptable (c : ProbeResultCommand) (run : RunRecord) (agent_id : String) (at : Time)
    : Type 0 where
  pub expires : Time
  pub named : is_empty c.id ≡ false
  pub held : run.status ≡ leased
  pub holder : run.lease_agent_id ≡ agent_id
  pub expiry : run.lease_expires_at ≡ some expires
  pub in_time : at ≤ℤ expires +ℤ seconds 30
  pub begun : run.scheduled_for -ℤ seconds 30 ≤ℤ c.started_at
  pub ordered : c.started_at ≤ℤ c.finished_at
  pub ended : c.finished_at ≤ℤ expires +ℤ seconds 30
  pub latency : pos 0 ≤ℤ c.latency
  pub sample : len c.diagnostic_sample ≤ 512
  pub values : length c.observed_values ≤ 20
  pub bytes : observed_bytes c.observed_values ≤ 4096
  pub dns : pos 0 ≤ℤ c.protocol_timings.dns
  pub connect : pos 0 ≤ℤ c.protocol_timings.connect
  pub tls : pos 0 ≤ℤ c.protocol_timings.tls
  pub first_byte : pos 0 ≤ℤ c.protocol_timings.first_byte
  pub outcome : (c.outcome ≡ passed) ⊎ (c.outcome ≡ failed)

is_nil-append {ℓ} : {A : Type ℓ} (xs ys : List A) → is_nil (xs ++ ys) ≡ (is_nil xs && is_nil ys)
is_nil-append [] ys = refl
is_nil-append (x ∷ xs) ys = refl

is_nil-field_if : (b : Bool) (name what : String) → is_nil (field_if b name what) ≡ not b
is_nil-field_if true name what = refl
is_nil-field_if false name what = refl

accepted_if :
    {a b : Bool} (e : Error) → a ≡ b → ((if a then ok (tt {0}) else err e) ≡ ok tt) ↔ (b ≡ true)
accepted_if {a} {b} e h = (λ r. ground arith, λ r. ground arith)

not_below : {a b : ℕ} → b ≤ a → ltb a b ≡ false
not_below h = ground (arith, h)

is_outcome_of : (o : ProbeOutcome) → (o ≡ passed) ⊎ (o ≡ failed) → is_outcome o ≡ true
is_outcome_of o (inl e) = rw e refl
is_outcome_of o (inr e) = rw e refl

leased_only : (s : RunStatus) → is_leased s ≡ true → s ≡ leased
leased_only available h = ground arith
leased_only leased h = refl
leased_only resolved h = ground arith

outcome_only : (o : ProbeOutcome) → is_outcome o ≡ true → (o ≡ passed) ⊎ (o ≡ failed)
outcome_only passed h = inl refl
outcome_only failed h = inr refl
outcome_only (other s) h = ground arith

module _ (c : ProbeResultCommand) (run : RunRecord) (agent_id : String) (at : Time) where
  -- The tests of `validateResult`, one for each entry of its map.
  abbrev passes : Bool
  passes =
      not (is_empty c.id)
      && not (inactive_lease run agent_id at)
      && not (outside_window c run)
      && not (is_negative c.latency)
      && not (ltb 512 (len c.diagnostic_sample))
      && not (ltb 20 (length c.observed_values) || ltb 4096 (observed_bytes c.observed_values))
      && not (
          is_negative c.protocol_timings.dns
          || is_negative c.protocol_timings.connect
          || is_negative c.protocol_timings.tls
          || is_negative c.protocol_timings.first_byte)
      && not (not (is_outcome c.outcome))

  is_nil-invalid_fields : is_nil (invalid_fields c run agent_id at) ≡ passes
  unfolding invalid_fields
  is_nil-invalid_fields = simp (is_nil-append, is_nil-field_if)

  validate_result-passes : (validate_result c run agent_id at ≡ ok tt) ↔ (passes ≡ true)
  unfolding validate_result
  validate_result-passes = accepted_if _ is_nil-invalid_fields

  acceptable_passes : IsAcceptable c run agent_id at → passes ≡ true
  acceptable_passes h =
      rw
        (
          h.held,
          h.expiry,
          h.holder,
          h.named,
          eq_refl agent_id,
          not_below h.in_time,
          not_below h.begun,
          not_below h.ended,
          not_below h.ordered,
          not_below h.latency,
          not_below h.sample,
          not_below h.values,
          not_below h.bytes,
          not_below h.dns,
          not_below h.connect,
          not_below h.tls,
          not_below h.first_byte,
          is_outcome_of c.outcome h.outcome,
        )
        refl

  passes-IsAcceptable : passes ≡ true → IsAcceptable c run agent_id at
  passes-IsAcceptable h = elim (Option-cases run.lease_expires_at) [
    | inl e ↦ absurd (ground arith)
    | inr (expires, e) ↦ record {
      expires = expires;
      named = ground arith;
      held = leased_only run.status (ground arith);
      holder = (eq_iff run.lease_agent_id agent_id).0 (ground arith);
      expiry = e;
      in_time = ground arith;
      begun = ground arith;
      ordered = ground arith;
      ended = ground arith;
      latency = ground arith;
      sample = ground arith;
      values = ground arith;
      bytes = ground arith;
      dns = ground arith;
      connect = ground arith;
      tls = ground arith;
      first_byte = ground arith;
      outcome = outcome_only c.outcome (ground arith);
    }
  ]

  -- A result is accepted exactly when it is acceptable: it has an identifier; the run is leased, by this
  -- agent, and the lease expired at most 30 seconds ago, if at all; the probe began at the earliest 30
  -- seconds before the schedule, ended at the latest 30 seconds after the expiry, and not before it began;
  -- no duration is negative; the sample has at most 512 bytes, and the observed values are at most 20 with
  -- 4096 bytes; the outcome is one of the two.
  pub validate_result-IsAcceptable :
      (validate_result c run agent_id at ≡ ok tt) ↔ IsAcceptable c run agent_id at
  validate_result-IsAcceptable = (
    λ h. passes-IsAcceptable (validate_result-passes.0 h),
    λ h. validate_result-passes.1 (acceptable_passes h),
  )
