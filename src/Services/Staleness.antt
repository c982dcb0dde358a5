-- ===== src/Services/Staleness.antt =====
-- One candidate of `MarkDue` of internal/application/staleness.go over the store.
use mathlib.Core.Path.{subst}
use xisnove.Prelude.{◌≡◌, refl, sym, ap, ◌∙◌, ◌≤◌, Bool, true, false, String, arith}
use xisnove.Prelude.Int.{eqb_ℤ}
use xisnove.Result.{ok}
use xisnove.Action.{World, Action, Query, run_query, pure, ◌>>=◌}
use xisnove.Action.Meets.{Meets, Meets-run_query, Meets-bind, Meets-if, Meets-pure}
use xisnove.Domain.Health.{Time, zero_time, LocationHealth}
use xisnove.Domain.Incident.Lifecycle.{IsActive, alarm}
use xisnove.Application.Environment.{Environment}
use xisnove.Application.Store.Atomic.{within_tx-Meets}
use xisnove.Application.Projection.{project_aggregate_and_incident}
use xisnove.Application.Scheduler.{mark_one}
use xisnove.Sqlite.Tables.{Db, find, count_where}
use xisnove.Sqlite.Health.{claim_stale}
use xisnove.Sqlite.Incidents.{is_active_of}
use xisnove.Sqlite.Incidents.Active.{active_of}
use xisnove.Services.{Backend, on_sqlite}
use xisnove.Services.Projection.{IsProjected, project_aggregate_and_incident-IsProjected}

claim_stale-incidents :
    (b : Backend) (m l : String) (s now : Time) (d : Db)
    → (claim_stale b.engine m l s now d).1.incidents ≡ d.incidents
unfolding claim_stale
claim_stale-incidents b m l s now d = refl

module _ (b : Backend) (env : Environment Db) (candidate : LocationHealth) (now : Time) (d0 : Db)
    (nonzero : eqb_ℤ now zero_time ≡ false)
    (one : count_where (is_active_of candidate.monitor_id) d0.incidents ≤ 1)
    (valid : IsActive candidate.monitor_id (active_of candidate.monitor_id d0)) where
  abbrev here : Environment Db
  here = on_sqlite b env

  abbrev IsMarked : Db → Type 0
  IsMarked d =
      IsProjected b env candidate.monitor_id true (alarm (active_of candidate.monitor_id d0)) d

  projected :
      Meets
        (λ d. d.incidents ≡ d0.incidents)
        (project_aggregate_and_incident here candidate.monitor_id now true)
        (λ u d. IsMarked d)
  projected = record {
    at = λ w u p e.
        let now_active : active_of candidate.monitor_id w.db ≡ active_of candidate.monitor_id d0 =
          ap (find (is_active_of candidate.monitor_id)) p in
        subst
          (λ a.
            IsProjected b env candidate.monitor_id true (alarm a)
              (project_aggregate_and_incident here candidate.monitor_id now true w).1.db)
          now_active
          (project_aggregate_and_incident-IsProjected b env candidate.monitor_id w now true nonzero
            (rw p one) (subst (IsActive candidate.monitor_id) (sym now_active) valid) e);
  }

  marked : Meets (λ d. d ≡ d0) (mark_one here candidate now) (λ t d. t ≡ true → IsMarked d)
  unfolding mark_one
  marked =
      let claim : Query Db Bool =
        claim_stale b.engine candidate.monitor_id candidate.location_id candidate.stale_at now in
      let project : Action Db (Unit {0}) =
        project_aggregate_and_incident here candidate.monitor_id now true in
      within_tx-Meets here.store _ (
        Meets-bind (λ t d. d.incidents ≡ d0.incidents) (run_query claim) _
          (Meets-run_query claim (λ d t p r.
            claim_stale-incidents b candidate.monitor_id candidate.location_id candidate.stale_at
              now d
            ∙ ap (λ (x : Db). x.incidents) p))
          λ t.
            Meets-if t (project >>= λ u. pure true) (pure false)
              (λ c.
                Meets-bind (λ u d. IsMarked d) project (λ u. pure true) projected
                  (λ u. Meets-pure true (λ d p e. p)))
              (λ c. Meets-pure false (λ d p e. absurd (ground (arith, e)))))

-- Let the time of a mark not be the zero time, let at most one incident of the candidate's monitor be
-- active, and let it be well formed. If the candidate is marked stale, then the monitor's health is the
-- rollup of its required locations as they are after the mark, and the alarm of its active incident is the
-- one that this health raises from the alarm before, also when it is unknown and no incident was active.
pub mark_one-IsProjected :
    (b : Backend) (env : Environment Db) (candidate : LocationHealth) (now : Time) (w : World Db)
    → eqb_ℤ now zero_time ≡ false
    → count_where (is_active_of candidate.monitor_id) w.db.incidents ≤ 1
    → IsActive candidate.monitor_id (active_of candidate.monitor_id w.db)
    → (mark_one (on_sqlite b env) candidate now w).0 ≡ ok true
    → IsProjected b env candidate.monitor_id true
        (alarm (active_of candidate.monitor_id w.db))
        (mark_one (on_sqlite b env) candidate now w).1.db
mark_one-IsProjected b env candidate now w nonzero one valid e =
    (marked b env candidate now w.db nonzero one valid).at w true refl e refl
