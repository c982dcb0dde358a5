-- ===== src/Sqlite/Runs/Traces.antt =====
-- What holds of check_runs after any sequence of the statements that change it, in any order and at
-- any times: those of other agents and of the scheduler lie between those of one agent.
use xisnove.Prelude.{ℕ, ◌≡◌, false, List, [], ◌∷◌, some, arith, All, String}
use xisnove.Domain.Health.{Time}
use xisnove.Application.Records.{NewRunRecord, ClaimRunParams, leased, resolved}
use xisnove.Sqlite.Tables.{Engine, RunRow, Db}
use xisnove.Sqlite.Runs.{insert_run, claim_probe, resolve_run, is_held, lease_expired}
use xisnove.Sqlite.Runs.Leases.{
  run_row, AreRunsKeyed, claim_keeps, resolve_keeps, insert_keeps, insert-AreRunsKeyed,
  claim-AreRunsKeyed, resolve-AreRunsKeyed,
}

pub data RunStatement : Type 0 where
  insert : NewRunRecord → RunStatement
  claim : ClaimRunParams → RunStatement
  resolve : String → String → List ℕ → Time → RunStatement

module _ (engine : Engine) where
  execute : Db → RunStatement → Db
  execute db (insert run) = (insert_run run db).1
  execute db (claim params) = (claim_probe engine params db).1
  execute db (resolve id agent_id hash at) = (resolve_run id agent_id hash at db).1

  pub execute_all : Db → List RunStatement → Db
  execute_all db [] = db
  execute_all db (s ∷ rest) = execute_all (execute db s) rest

  execute-AreRunsKeyed :
      (db : Db) (s : RunStatement) → AreRunsKeyed db → AreRunsKeyed (execute db s)
  unfolding execute
  execute-AreRunsKeyed db (insert run) k = insert-AreRunsKeyed run db k
  execute-AreRunsKeyed db (claim params) k = claim-AreRunsKeyed engine params db k
  execute-AreRunsKeyed db (resolve id agent_id hash at) k =
      resolve-AreRunsKeyed id agent_id hash at db k

  -- Every sequence of statements keeps the keys of check_runs: there is one row to an identifier, and
  -- one run to a monitor, location and time.
  pub execute_all-AreRunsKeyed :
      (db : Db) (statements : List RunStatement)
      → AreRunsKeyed db
      → AreRunsKeyed (execute_all db statements)
  unfolding execute_all
  execute_all-AreRunsKeyed db [] k = k
  execute_all-AreRunsKeyed db (s ∷ rest) k =
      execute_all-AreRunsKeyed (execute db s) rest (execute-AreRunsKeyed db s k)

  -- A statement that may not touch a leased run: a claim before the lease expires, or a resolution
  -- that is not by the holder with the token of the lease.
  abbrev pub Respects : RunRow → RunStatement → Type 0
  Respects r (insert run) = Unit
  Respects r (claim params) = lease_expired engine params.now r.lease_expires_at ≡ false
  Respects r (resolve id agent_id hash at) = is_held id agent_id hash r ≡ false

  kept_by :
      (db : Db) (id : String) (r : RunRow) (s : RunStatement)
      → AreRunsKeyed db
      → run_row id db ≡ some r
      → r.status ≡ leased
      → Respects r s
      → run_row id (execute db s) ≡ some r
  unfolding execute
  kept_by db id r (insert run) k e l h = insert_keeps run id r db e
  kept_by db id r (claim params) k e l h = claim_keeps engine params db id r k e (ground arith)
  kept_by db id r (resolve i agent_id hash at) k e l h =
      resolve_keeps i agent_id hash at id r db e h

  -- A lease is exclusive. Let the runs be keyed and a run be leased. Whatever the statements, if each
  -- claim among them comes before the lease expires, and no resolution is by the holder with the token
  -- of the lease, the run's row stays as it is.
  pub lease_exclusive :
      (db : Db) (id : String) (r : RunRow) (statements : List RunStatement)
      → AreRunsKeyed db
      → run_row id db ≡ some r
      → r.status ≡ leased
      → All (Respects r) statements
      → run_row id (execute_all db statements) ≡ some r
  unfolding execute_all
  lease_exclusive db id r [] k e l h = e
  lease_exclusive db id r (s ∷ rest) k e l h =
      lease_exclusive (execute db s) id r rest (execute-AreRunsKeyed db s k)
        (kept_by db id r s k e l h.0) l h.1

  final_by :
      (db : Db) (id : String) (r : RunRow) (s : RunStatement)
      → AreRunsKeyed db
      → run_row id db ≡ some r
      → r.status ≡ resolved
      → run_row id (execute db s) ≡ some r
  unfolding execute
  final_by db id r (insert run) k e l = insert_keeps run id r db e
  final_by db id r (claim params) k e l = claim_keeps engine params db id r k e (ground arith)
  final_by db id r (resolve i agent_id hash at) k e l =
      resolve_keeps i agent_id hash at id r db e (ground arith)

  -- A resolved run is final: if the runs are keyed, no sequence of statements, at any times, changes its
  -- row again.
  pub resolved_final :
      (db : Db) (id : String) (r : RunRow) (statements : List RunStatement)
      → AreRunsKeyed db
      → run_row id db ≡ some r
      → r.status ≡ resolved
      → run_row id (execute_all db statements) ≡ some r
  unfolding execute_all
  resolved_final db id r [] k e l = e
  resolved_final db id r (s ∷ rest) k e l =
      resolved_final (execute db s) id r rest (execute-AreRunsKeyed db s k)
        (final_by db id r s k e l) l
