-- ===== src/Sqlite/Runs/Claims.antt =====
-- What ClaimProbe of internal/adapters/sqlitecompat/store.go returns, and to whom.
use text.Mathlib.TextPositions.{eq_refl}
use xisnove.Prelude.{
  ◌≡◌, refl, ap, ◌∙◌, ◌+◌, Bool, true, false, List, [], ◌∷◌, some, arith, All, Option-cases, inl,
  inr, if◌then◌else◌,
}
use xisnove.Prelude.Int.{◌≤ℤ◌}
use xisnove.Result.{ok}
use xisnove.Application.Records.{AgentRecord, ClaimRunParams, RunRecord, leased}
use xisnove.Sqlite.Tables.{
  Engine, RunRow, Db, first, select, order_by, nullable_string, nullable_time_value,
}
use xisnove.Sqlite.Tables.Laws.{first-order_by}
use xisnove.Sqlite.Mapping.{map_run, decode_probe}
use xisnove.Sqlite.Runs.{
  next_run, claim_probe, lease_row, is_candidate, claimed_before, active_agent,
}
use xisnove.Sqlite.Runs.Open.{
  IsActiveAgent, active_agent-IsActiveAgent, IsOpen, is_candidate-IsOpen, IsOpen-is_candidate,
}
use xisnove.Sqlite.Runs.Leases.{AreRunsKeyed, run_row, next_run_lem, run_row-claim, claim_none}

-- A row under a lease of the request: its agent, token and expiry, and one attempt more.
abbrev pub leased_row : ClaimRunParams → RunRow → RunRow
leased_row params row = record row {
  status = leased;
  lease_agent_id = nullable_string params.agent_id;
  lease_token_hash = some params.lease_token_hash;
  lease_attempt = row.lease_attempt + 1;
  lease_expires_at = nullable_time_value params.lease_expires_at;
}

-- What is returned of a row that is leased.
pub record IsReturned (params : ClaimRunParams) (row : RunRow) (run : RunRecord) : Type 0 where
  pub id : run.id ≡ row.id
  pub monitor : run.monitor_id ≡ row.monitor_id
  pub location : run.location_id ≡ row.location_id
  pub scheduled : run.scheduled_for ≡ row.scheduled_for
  pub probe : run.probe ≡ row.probe
  pub status : run.status ≡ leased
  pub token : run.lease_token_hash ≡ params.lease_token_hash
  pub attempt : run.lease_attempt ≡ row.lease_attempt + 1

module _ (engine : Engine) (params : ClaimRunParams) (db : Db) where
  -- What a claim that succeeds says of the run that it returns.
  pub record IsClaim (run : RunRecord) : Type 0 where
    pub agent : AgentRecord
    pub row : RunRow
    pub active : IsActiveAgent params.agent_id db agent
    pub was : run_row row.id db ≡ some row
    pub open_to : IsOpen engine params agent row
    pub oldest :
        All
          (λ (s : RunRow).
            IsOpen engine params agent s
            → engine.julianday row.scheduled_for ≤ℤ engine.julianday s.scheduled_for)
          db.check_runs
    pub now : run_row row.id (claim_probe engine params db).1 ≡ some (leased_row params row)
    pub returned : IsReturned params row run

  next_run-first :
      (r : RunRow) (a : AgentRecord)
      → active_agent engine params.agent_id db ≡ some a
      → next_run engine params db ≡ some r
      → first
          (order_by (claimed_before engine) (select (is_candidate engine params a) db.check_runs))
        ≡ some r
  unfolding next_run
  next_run-first r a s e = ground arith

  claim_ok :
      (r : RunRow) (run : RunRecord)
      → next_run engine params db ≡ some r
      → (claim_probe engine params db).0 ≡ ok run
      → map_run (lease_row params r) ≡ ok run
  unfolding claim_probe
  claim_ok r run e h = ground arith

  map_run-IsReturned :
      (r : RunRow) (run : RunRecord)
      → map_run (lease_row params r) ≡ ok run
      → IsReturned params r run
  unfolding map_run decode_probe lease_row
  map_run-IsReturned r run h = ground (arith, h)

  row_leased : (r : RunRow) → lease_row params r ≡ leased_row params r
  unfolding lease_row
  row_leased r = refl

  -- A bound on the rows that a test selects is one on all that pass it.
  select-All :
      (P : RunRow → Type 0) (p : RunRow → Bool) (rows : List RunRow)
      → All P (select p rows)
      → All (λ s. p s ≡ true → P s) rows
  unfolding select
  select-All P p [] h = tt
  select-All P p (s ∷ rows) h = picked (p s) (select-All P p rows) h
    where
      picked :
          (b : Bool)
          → (All P (select p rows) → All (λ x. p x ≡ true → P x) rows)
          → All P (if b then s ∷ select p rows else select p rows)
          → (b ≡ true → P s) × All (λ x. p x ≡ true → P x) rows
      picked true more (near, far) = (λ e. near, more far)
      picked false more h = (λ e. absurd (ground (arith, e)), more h)

  All-map :
      {P Q : RunRow → Type 0} (rows : List RunRow)
      → ((s : RunRow) → P s → Q s)
      → All P rows
      → All Q rows
  All-map [] f h = tt
  All-map (s ∷ rows) f (near, far) = (f s near, All-map rows f far)

  -- When the runs are keyed, a claim that succeeds returns the run whose row it leased. An agent that is
  -- known and not revoked has the identifier of the request. The row, as it was, lay at that agent's
  -- location, was due, was available or had a lease that expired, and its kind is that of a capability
  -- of the request; no other such row has an earlier schedule. The row, as it is now, is leased to the
  -- agent with the token and the expiry of the request, has one more attempt, and is else unchanged.
  pub claim_probe-IsClaim :
      (run : RunRecord) → AreRunsKeyed db → (claim_probe engine params db).0 ≡ ok run → IsClaim run
  claim_probe-IsClaim run k h = elim (Option-cases (next_run engine params db)) [
    | inl e ↦ absurd (ground (arith, claim_none engine params db e))
    | inr (r, e) ↦
        let (a, s, at, c) = next_run_lem engine params db r k e in
        let first_open =
          first-order_by (claimed_before engine) (λ (x : RunRow). engine.julianday x.scheduled_for)
            (λ x y b. ground arith) (λ x y b. ground arith)
            (select (is_candidate engine params a) db.check_runs) r (next_run-first r a s e) in
        record {
          agent = a;
          row = r;
          active = active_agent-IsActiveAgent engine params.agent_id db a s;
          was = at;
          open_to = is_candidate-IsOpen engine params a r c;
          oldest =
              All-map db.check_runs (λ x bound o. bound (IsOpen-is_candidate engine params a x o))
                (select-All _ (is_candidate engine params a) db.check_runs first_open);
          now =
              run_row-claim engine params db r r.id e
              ∙ rw at (rw (eq_refl r.id))
              ∙ ap some (row_leased r);
          returned = map_run-IsReturned r run (claim_ok r run e h);
        }
  ]
