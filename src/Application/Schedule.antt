-- ===== src/Application/Schedule.antt =====
-- `boundedSchedule` of internal/application/scheduler.go: which run of a monitor is due, and when the
-- next one is.
use mathlib.Core.Path.{subst}
use xisnove.Prelude.{
  ℕ, ◌+◌, ◌*◌, ◌/◌, ◌^◌, ◌≤◌, ◌<◌, ◌≡◌, refl, arith, false, ap, sym, ◌∙◌, ◌||◌, if◌then◌else◌, ◌-◌,
}
use xisnove.Prelude.Int.{
  int_laws, ℤ, pos, negsuc, pos_part, neg_part, ◌+ℤ◌, ◌-ℤ◌, ◌*ℤ◌, ◌≤ℤ◌, ◌<ℤ◌, ltb_ℤ, leb_ℤ, eqb_ℤ,
  i64, saturate, quot, IsInt64, i64-eq, saturate-eq, -ℤ_parts,
}
use xisnove.Result.{Result, ok, err, other}
use xisnove.Domain.Health.{Time, zero_time}
use xisnove.Domain.Monitor.{Duration}

-- now.Sub(scheduledAt) / interval
unfoldable pub skipped_intervals : Time → Duration → Time → ℤ
skipped_intervals scheduled_at interval now = quot (saturate (now -ℤ scheduled_at)) interval

-- The result is (scheduledFor, nextRunAt, skipped). `Time` is unbounded here: an instant beyond the
-- range of `time.Time` is not modelled.
unfoldable pub bounded_schedule : Time → Duration → Time → Result (Time × Time × ℤ)
bounded_schedule scheduled_at interval now =
    if eqb_ℤ scheduled_at zero_time || leb_ℤ interval (pos 0)
    then err (other "invalid monitor schedule")
    else if ltb_ℤ now scheduled_at
    then ok (scheduled_at, scheduled_at, pos 0)
    else let skipped = skipped_intervals scheduled_at interval now in
      let latest = scheduled_at +ℤ i64 (skipped *ℤ interval) in
      ok (latest, latest +ℤ interval, skipped)

div_bounds : (g n : ℕ) → 0 < n → (g / n * n ≤ g) × (g < g / n * n + n)
div_bounds g n h = (omega arith, omega arith)

sub_nonneg : (s now : Time) → s ≤ℤ now → (g : ℕ) × (now -ℤ s ≡ pos g)
unfolding ◌-ℤ◌
sub_nonneg s now l = (pos_part now + neg_part s - (neg_part now + pos_part s), ground arith)

quot_pos : (g n : ℕ) → quot (pos g) (pos n) ≡ pos (g / n)
unfolding quot
quot_pos g n = ground arith

mul_pos : (k n : ℕ) → pos k *ℤ pos n ≡ pos (k * n)
unfolding ◌*ℤ◌
mul_pos k n = ground arith

-- The due schedule, when the monitor is not ahead of the clock.
due_schedule :
    (s : Time) (n : ℕ) (now : Time) (g : ℕ)
    → eqb_ℤ s zero_time ≡ false
    → 0 < n
    → s ≤ℤ now
    → now -ℤ s ≡ pos g
    → g < 2 ^ 63
    → bounded_schedule s (pos n) now
      ≡ ok (s +ℤ pos (g / n * n), s +ℤ pos (g / n * n) +ℤ pos n, pos (g / n))
unfolding bounded_schedule skipped_intervals
due_schedule s n now g z p l e r =
    let small : g / n * n < 2 ^ 63 = omega (arith, div_bounds g n p) in
    rw
      (
        z,
        e,
        saturate-eq (pos g) (omega arith),
        quot_pos g n,
        mul_pos (g / n) n,
        i64-eq (pos (g / n * n)) (omega arith),
      )
      (ground arith)

guards :
    (s : Time) (interval : Duration) (now : Time) {r : Time × Time × ℤ}
    → bounded_schedule s interval now ≡ ok r
    → (eqb_ℤ s zero_time ≡ false) × (pos 0 <ℤ interval)
unfolding bounded_schedule
guards s interval now h = ground arith

-- What a schedule that is due says, as a statement about its three parts.
abbrev IsDueSchedule : Time → Duration → Time → Time × Time × ℤ → Type 0
IsDueSchedule s interval now r =
    (r.0 ≡ s +ℤ r.2 *ℤ interval)
    × (r.0 ≤ℤ now)
    × (now <ℤ r.1)
    × (r.1 ≡ r.0 +ℤ interval)
    × (pos 0 ≤ℤ r.2)

due_parts :
    (s : Time) (n : ℕ) (now : Time) (g : ℕ)
    → 0 < n
    → now -ℤ s ≡ pos g
    → IsDueSchedule s (pos n) now (s +ℤ pos (g / n * n), s +ℤ pos (g / n * n) +ℤ pos n, pos (g / n))
due_parts s n now g p e =
    let (low, high) = div_bounds g n p in
    let d : pos_part now + neg_part s ≡ neg_part now + pos_part s + g =
      omega (arith, -ℤ_parts now s, ap pos_part e, ap neg_part e) in
    (rw (mul_pos (g / n) n), omega int_laws, omega int_laws, refl, omega arith)

ok-injective {ℓ} : {A : Type ℓ} {a b : A} → ok a ≡ ok b → a ≡ b
ok-injective h = cc

-- A monitor that is due since less than 2^63 nanoseconds, and whose interval is positive, is
-- scheduled for the latest of its regular times, counted from its next run, that is not in the future;
-- its next run is one interval later, in the future; the skipped intervals are those in between.
pub bounded_schedule_due :
    (s : Time) (interval : Duration) (now scheduled_for next : Time) (skipped : ℤ)
    → bounded_schedule s interval now ≡ ok (scheduled_for, next, skipped)
    → s ≤ℤ now
    → IsInt64 (now -ℤ s)
    → (scheduled_for ≡ s +ℤ skipped *ℤ interval)
      × (scheduled_for ≤ℤ now)
      × (now <ℤ next)
      × (next ≡ scheduled_for +ℤ interval)
      × (pos 0 ≤ℤ skipped)
bounded_schedule_due s (negsuc n) now f next skipped h l r =
    absurd (omega (arith, guards s (negsuc n) now h))
bounded_schedule_due s (pos n) now f next skipped h l r =
    let (z, p) = guards s (pos n) now h in
    let (g, e) = sub_nonneg s now l in
    let small : g < 2 ^ 63 = omega (arith, ap pos_part e) in
    subst (IsDueSchedule s (pos n) now)
      (ok-injective (sym (due_schedule s n now g z (omega arith) l e small) ∙ h))
      (due_parts s n now g (omega arith) e)
