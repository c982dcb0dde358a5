-- ===== src/Sqlite/Runs/Leases.antt =====
-- The life of a check run in internal/adapters/sqlitecompat/store.go: available, leased, leased again
-- when a lease has expired, resolved by its holder.
use mathlib.Core.Path.{subst}
use text.Mathlib.Text.{◌==◌ as str_eq}
use text.Mathlib.TextEquality.{eq_iff}
use text.Mathlib.TextPositions.{eq_refl}
use xisnove.Prelude.{
  ℕ, ◌≡◌, refl, ap, sym, ◌∙◌, Bool, true, false, List, [], ◌∷◌, ◌++◌, Option, none, some, arith,
  any, Bool-cases, Option-cases, inl, inr, if◌then◌else◌, String, ◌⊎◌,
}
use xisnove.Result.{err, not_found}
use xisnove.Domain.Health.{Time}
use xisnove.Application.Records.{AgentRecord, NewRunRecord, ClaimRunParams}
use xisnove.Sqlite.Tables.{Engine, RunRow, Db, find, first, select, order_by}
use xisnove.Sqlite.Tables.Laws.{map_option, find-update_where, find-append, find-any, find-holds}
use xisnove.Sqlite.Tables.Keys.{IsKeyedBy, update_where-IsKeyedBy, append-IsKeyedBy, chosen_holds}
use xisnove.Sqlite.Runs.{
  next_run, lease_row, claim_probe, insert_run, resolve_run, new_run_row, resolve_row, is_held,
  is_claimable, is_candidate, claimed_before, active_agent, same_slot,
}

abbrev pub same_id : RunRow → RunRow → Bool
same_id r s = str_eq s.id r.id

abbrev chosen_by : Engine → ClaimRunParams → Db → Option AgentRecord → Option RunRow
chosen_by engine params db none = none
chosen_by engine params db (some a) =
    first (order_by (claimed_before engine) (select (is_candidate engine params a) db.check_runs))

-- The row of a run.
abbrev pub run_row : String → Db → Option RunRow
run_row id db = find (λ r. str_eq r.id id) db.check_runs

-- The primary key of check_runs, and its UNIQUE constraint: each row is the only one with its
-- identifier, and the only one of its monitor, location and time.
pub record AreRunsKeyed (db : Db) : Type 0 where
  pub ids : IsKeyedBy same_id db.check_runs
  pub slots : IsKeyedBy (λ r. same_slot r.monitor_id r.location_id r.scheduled_for) db.check_runs

module _ (engine : Engine) (params : ClaimRunParams) (db : Db) where
  -- The run that a claim takes, when there is one: an unrevoked agent with the identifier of the
  -- request is at the run's location, the run was claimable and due, and its kind was asked for.
  pub next_run_lem :
      (r : RunRow)
      → AreRunsKeyed db
      → next_run engine params db ≡ some r
      → (a : AgentRecord) × (active_agent engine params.agent_id db ≡ some a)
        × (run_row r.id db ≡ some r)
        × (is_candidate engine params a r ≡ true)
  unfolding next_run
  next_run_lem r k e = elim (Option-cases (active_agent engine params.agent_id db)) [
    | inl n ↦ absurd (ground arith)
    | inr (a, s) ↦
        let (at, c) =
          chosen_holds (λ x. run_row x.id db ≡ some x) (claimed_before engine)
            (is_candidate engine params a) db.check_runs r k.ids
            (sym (ap (chosen_by engine params db) s) ∙ e) in
        (a, s, at, c)
  ]

  -- A claim that finds no run changes nothing; one that finds a run leases that row alone.
  pub claim_none :
      next_run engine params db ≡ none → claim_probe engine params db ≡ (err not_found, db)
  unfolding claim_probe
  claim_none e = rw (e, claim_probe)

  pub run_row-claim :
      (c : RunRow) (id : String)
      → next_run engine params db ≡ some c
      → run_row id (claim_probe engine params db).1
        ≡ map_option (λ s. if str_eq s.id c.id then lease_row params s else s) (run_row id db)
  unfolding claim_probe lease_row
  run_row-claim c id e =
      rw (e, claim_probe)
        (find-update_where (λ s. str_eq s.id id) (λ s. str_eq s.id c.id) (lease_row params)
          db.check_runs (λ s. refl))

  claimable_of :
      (a : AgentRecord) (r : RunRow)
      → is_candidate engine params a r ≡ true
      → is_claimable engine params.now r ≡ true
  claimable_of a r h = ground arith

  -- A claim leaves every run alone that it could not have taken.
  pub claim_keeps :
      (id : String) (r : RunRow)
      → AreRunsKeyed db
      → run_row id db ≡ some r
      → is_claimable engine params.now r ≡ false
      → run_row id (claim_probe engine params db).1 ≡ some r
  claim_keeps id r k e n = elim (Option-cases (next_run engine params db)) [
    | inl none_due ↦ rw (claim_none none_due) e
    | inr (c, s) ↦
        let (a, _, at, candidate) = next_run_lem c k s in
        let named = (eq_iff r.id id).0 (find-holds (λ x. str_eq x.id id) db.check_runs r e) in
        run_row-claim c id s
        ∙ rw e (elim (Bool-cases (str_eq r.id c.id)) [
          | inl same ↦
              let there : some c ≡ some r =
                sym at
                ∙ ap (λ i. run_row i db) (sym ((eq_iff r.id c.id).0 same))
                ∙ ap (λ i. run_row i db) named
                ∙ e in
              absurd (ground (arith, claimable_of a c candidate, there))
          | inr apart ↦ rw apart
        ])
  ]

-- Resolving leaves every row alone that it does not select.
pub resolve_keeps :
    (id agent_id : String) (hash : List ℕ) (at : Time) (other_id : String) (r : RunRow) (db : Db)
    → run_row other_id db ≡ some r
    → is_held id agent_id hash r ≡ false
    → run_row other_id (resolve_run id agent_id hash at db).1 ≡ some r
unfolding resolve_run resolve_row
resolve_keeps id agent_id hash at other_id r db e n =
    find-update_where (λ s. str_eq s.id other_id) (is_held id agent_id hash) (resolve_row at)
      db.check_runs (λ s. refl)
    ∙ rw (e, n)

-- Inserting leaves the row of every run alone that there is.
pub insert_keeps :
    (run : NewRunRecord) (id : String) (r : RunRow) (db : Db)
    → run_row id db ≡ some r
    → run_row id (insert_run run db).1 ≡ some r
unfolding insert_run
insert_keeps run id r db e = ground (
  arith,
  find-append (λ s. str_eq s.id id) db.check_runs (new_run_row run ∷ []),
  find-any (λ s. str_eq s.id id) db.check_runs {r = r} e,
)

-- An insert changes nothing, or adds a row whose identifier and slot are new.
insert_cases :
    (run : NewRunRecord) (db : Db)
    → ((insert_run run db).1 ≡ db)
      ⊎ ((any (same_slot run.monitor_id run.location_id run.scheduled_for) db.check_runs ≡ false)
          × (any (λ r. str_eq r.id run.id) db.check_runs ≡ false)
          × (record db { check_runs = db.check_runs ++ new_run_row run ∷ [] }
              ≡ (insert_run run db).1))
unfolding insert_run
insert_cases run db = ground arith

-- The three statements that change check_runs keep its keys.
pub insert-AreRunsKeyed :
    (run : NewRunRecord) (db : Db) → AreRunsKeyed db → AreRunsKeyed (insert_run run db).1
unfolding new_run_row
insert-AreRunsKeyed run db k = elim (insert_cases run db) [
  | inl same ↦ subst AreRunsKeyed (sym same) k
  | inr (slot, id, added) ↦ subst AreRunsKeyed added (record {
    ids = append-IsKeyedBy same_id (new_run_row run) db.check_runs id (eq_refl run.id) k.ids;
    slots =
        append-IsKeyedBy (λ r. same_slot r.monitor_id r.location_id r.scheduled_for)
          (new_run_row run) db.check_runs slot
          (ground (arith, eq_refl run.monitor_id, eq_refl run.location_id)) k.slots;
  })
]

pub claim-AreRunsKeyed :
    (engine : Engine) (params : ClaimRunParams) (db : Db)
    → AreRunsKeyed db
    → AreRunsKeyed (claim_probe engine params db).1
unfolding claim_probe lease_row
claim-AreRunsKeyed engine params db k = elim (Option-cases (next_run engine params db)) [
  | inl e ↦ rw (claim_none engine params db e) k
  | inr (c, e) ↦
      rw (e, claim_probe)
        (record {
          ids =
              update_where-IsKeyedBy same_id (λ s. str_eq s.id c.id) (lease_row params)
                (λ r s. refl) (λ r s. refl) db.check_runs k.ids;
          slots =
              update_where-IsKeyedBy (λ r. same_slot r.monitor_id r.location_id r.scheduled_for)
                (λ s. str_eq s.id c.id) (lease_row params) (λ r s. refl) (λ r s. refl) db.check_runs
                k.slots;
        })
]

pub resolve-AreRunsKeyed :
    (id agent_id : String) (hash : List ℕ) (at : Time) (db : Db)
    → AreRunsKeyed db
    → AreRunsKeyed (resolve_run id agent_id hash at db).1
unfolding resolve_run resolve_row
resolve-AreRunsKeyed id agent_id hash at db k = record {
  ids =
      update_where-IsKeyedBy same_id (is_held id agent_id hash) (resolve_row at) (λ r s. refl)
        (λ r s. refl) db.check_runs k.ids;
  slots =
      update_where-IsKeyedBy (λ r. same_slot r.monitor_id r.location_id r.scheduled_for)
        (is_held id agent_id hash) (resolve_row at) (λ r s. refl) (λ r s. refl) db.check_runs
        k.slots;
}
