-- ===== src/Application/Scheduler.antt =====
-- internal/application/scheduler.go and staleness.go: the two loops that run by the clock.
use xisnove.Prelude.{ℕ, suc, ◌+◌, ◌^◌, ◌%◌, Bool, true, false, List, [], ◌∷◌, if◌then◌else◌}
use xisnove.Prelude.Int.{ℤ, pos, pos_part, ◌-ℤ◌, ltb_ℤ, leb_ℤ, saturate}
use xisnove.Result.{Result, ok, err}
use xisnove.Action.{World, Action, pure, run_query, ask, ◌>>=◌, ◌>>◌}
use xisnove.Domain.Health.{Time, LocationHealth}
use xisnove.Domain.Monitor.{Duration, probe_of}
use xisnove.Application.Schedule.{bounded_schedule}
use xisnove.Application.Records.{DueMonitor}
use xisnove.Application.Store.{within_tx}
use xisnove.Application.Environment.{Environment}
use xisnove.Application.Projection.{project_aggregate_and_incident}

-- The limit of a batch: 100 by default, 1000 at most.
unfoldable pub batch_limit : ℤ → ℕ
batch_limit limit =
    if leb_ℤ limit (pos 0) then 100 else if ltb_ℤ (pos 1000) limit then 1000 else pos_part limit

pub record SchedulerStats : Type 0 where
  pub inserted : ℕ
  pub skipped_intervals : ℕ
  pub maximum_lag : Duration

abbrev pub no_stats : SchedulerStats
no_stats = record { inserted = 0; skipped_intervals = 0; maximum_lag = pos 0 }

-- The result of a loop that may stop: what was counted, and the error that stopped it.
pub record Counted (A : Type 0) : Type 0 where
  pub count : A
  pub error : Result (Unit {0})

abbrev max_lag : Duration → Duration → Duration
max_lag lag maximum = if ltb_ℤ maximum lag then lag else maximum

-- What a run that was created adds; SkippedIntervals is a uint64.
unfoldable pub add_created : ℤ → Bool → SchedulerStats → SchedulerStats
add_created skipped true stats = record stats {
  inserted = stats.inserted + 1;
  skipped_intervals = (stats.skipped_intervals + pos_part skipped) % 2 ^ 64;
}
add_created skipped false stats = stats

module _ {D : Type 0} (env : Environment D) where
  open env.store.repositories use {runs, monitors, health}

  -- The transaction of one due monitor and location: whether a run was created.
  unfoldable pub schedule_one : DueMonitor → Time → Time → Time → Action D Bool
  schedule_one item scheduled_for next_run_at now = do
    id ← ask env.new_id
    within_tx env.store do
      created ← run_query (
          runs.insert (record {
            id = id;
            monitor_id = item.monitor.id;
            location_id = item.location_id;
            scheduled_for = scheduled_for;
            probe = probe_of item.monitor;
            timeout = item.monitor.timeout;
          }))
      run_query (monitors.advance_next_run item.monitor.id next_run_at now)
      pure created

  -- The loop, with the statistics so far.
  unfoldable pub schedule_each :
      Time → SchedulerStats → List DueMonitor → World D → Counted SchedulerStats × World D
  schedule_each now stats [] w = (record { count = stats; error = ok tt }, w)
  schedule_each now stats (item ∷ rest) w =
      elim (bounded_schedule item.next_run_at item.monitor.interval now) [
        | err e ↦ (record { count = stats; error = err e }, w)
        | ok schedule ↦
            let lagging = record stats {
              maximum_lag = max_lag (saturate (now -ℤ item.next_run_at)) stats.maximum_lag;
            } in
            let (created, w') = schedule_one item schedule.0 schedule.1 now w in
            elim created [
              | err e ↦ (record { count = lagging; error = err e }, w')
              | ok b ↦ schedule_each now (add_created schedule.2 b lagging) rest w'
            ]
      ]

  counted_from : Result (Time × List DueMonitor) → World D → Counted SchedulerStats × World D
  counted_from (err e) w = (record { count = no_stats; error = err e }, w)
  counted_from (ok (now, due)) w = schedule_each now no_stats due w

  -- EnqueueDueWithStats
  unfoldable pub enqueue_due : ℤ → World D → Counted SchedulerStats × World D
  unfolding counted_from
  enqueue_due limit w =
      let (read, w') =
        (do
          now ← run_query runs.database_now
          due ← run_query (monitors.list_due now (batch_limit limit))
          pure (now, due))
          w in
      counted_from read w'

  -- The transaction of one stale location: whether it was claimed.
  unfoldable pub mark_one : LocationHealth → Time → Action D Bool
  mark_one candidate now = within_tx env.store do
    changed ←
        run_query
          (health.claim_stale candidate.monitor_id candidate.location_id candidate.stale_at now)
    if changed
        then (do project_aggregate_and_incident env candidate.monitor_id now true; pure true)
        else pure false

  unfoldable pub mark_each : Time → ℕ → List LocationHealth → World D → Counted ℕ × World D
  mark_each now marked [] w = (record { count = marked; error = ok tt }, w)
  mark_each now marked (candidate ∷ rest) w =
      let (changed, w') = mark_one candidate now w in
      elim changed [
        | err e ↦ (record { count = marked; error = err e }, w')
        | ok b ↦ mark_each now (if b then suc marked else marked) rest w'
      ]

  marked_from : Result (Time × List LocationHealth) → World D → Counted ℕ × World D
  marked_from (err e) w = (record { count = 0; error = err e }, w)
  marked_from (ok (now, due)) w = mark_each now 0 due w

  -- StalenessService.MarkDue
  unfoldable pub mark_due : ℤ → World D → Counted ℕ × World D
  unfolding marked_from
  mark_due limit w =
      let (read, w') =
        (do
          now ← run_query runs.database_now
          due ← run_query (health.list_stale now (batch_limit limit))
          pure (now, due))
          w in
      marked_from read w'
