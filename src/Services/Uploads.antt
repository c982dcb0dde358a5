-- ===== src/Services/Uploads.antt =====
-- A result that is uploaded again: `UploadBatch` of internal/application/results.go over the store.
use text.Mathlib.Text.{◌==◌ as str_eq}
use text.Mathlib.TextPositions.{eq_refl}
use xisnove.Prelude.{
  ◌≡◌, refl, sym, ◌∙◌, String, Bool, true, false, ◌||◌, List, [], ◌∷◌, arith, ℕ, any, bytes_eq,
  Bool-cases, inl, inr, ap,
}
use xisnove.Result.{Result, ok, conflict, validation}
use xisnove.Action.{World, Action, Query, pure, lift, run_query, ask, ensure, ◌>>=◌}
use xisnove.Action.Keeps.{Keeps, Keeps-bind, Keeps-ensure, Keeps-pure}
use xisnove.Action.Ensures.{Ensures, Ensures-run_query, Ensures-bind, Ensures-then, Ensures-guard}
use xisnove.Domain.Health.{Time, LocationHealth}
use xisnove.Domain.Monitor.{Duration, Monitor}
use xisnove.Application.Environment.{Environment}
use xisnove.Application.Records.{ProbeResultRecord, RunRecord}
use xisnove.Application.Results.{
  ProbeResultCommand, ResultStatus, accepted, duplicate, result_record, observed_health,
  result_exists, observe, settle, ingest, ingest_once, validate_result,
}
use xisnove.Sqlite.Tables.{Db}
use xisnove.Sqlite.Tables.Laws.{any-append}
use xisnove.Sqlite.Health.{get_location_health, upsert_location_health}
use xisnove.Sqlite.Monitors.{get_monitor}
use xisnove.Application.Results.Known.{known_by_id, known_by_run, not_known}
use xisnove.Sqlite.Results.Lookup.{IsLookup, get_result_by_id-IsLookup, get_result_by_run-IsLookup}
use xisnove.Sqlite.Results.{insert_result, stored_result}
use xisnove.Sqlite.Runs.{get_run, resolve_run}
use xisnove.Services.{Backend, on_sqlite}
use xisnove.Services.Results.{
  SparesResults, Holds, Keeps-query, upsert_location_health-SparesResults,
  project_aggregate_and_incident-Keeps,
}

-- A result with the identifier of the command, or one for its run, is there.
abbrev pub has_result : ProbeResultCommand → Db → Bool
has_result c db =
    any (λ (r : ProbeResultRecord). str_eq r.id c.id || str_eq r.run_id c.run_id) db.probe_results

by_either :
    (c : ProbeResultCommand) (rows : List ProbeResultRecord)
    → any (λ (r : ProbeResultRecord). str_eq r.id c.id || str_eq r.run_id c.run_id) rows ≡ (
        any (λ (r : ProbeResultRecord). str_eq r.id c.id) rows
        || any (λ (r : ProbeResultRecord). str_eq r.run_id c.run_id) rows)
by_either c [] = refl
by_either c (r ∷ rows) = ground (arith, by_either c rows)

module _ (b : Backend) (env : Environment Db) where
  abbrev here : Environment Db
  here = on_sqlite b env

  -- `resultExists` looks for the identifier and for the run, and changes nothing.
  result_exists-has_result :
      (c : ProbeResultCommand) (w : World Db) → result_exists here c w ≡ (ok (has_result c w.db), w)
  result_exists-has_result c w = elim (get_result_by_id-IsLookup c.id w.db) [
    | IsLookup.hit r t e ↦ known_by_id here c w r e ∙ rw (by_either c w.db.probe_results, t) refl
    | IsLookup.miss t e ↦ elim (get_result_by_run-IsLookup c.run_id w.db) [
      | IsLookup.hit r u f ↦
          known_by_run here c w r e f ∙ rw (by_either c w.db.probe_results, t, u) refl
      | IsLookup.miss u f ↦ not_known here c w e f ∙ rw (by_either c w.db.probe_results, t, u) refl
    ]
  ]

  known_again :
      (lease_duration : Duration) (agent_id : String) (c : ProbeResultCommand) (w : World Db)
      → has_result c w.db ≡ true
      → ingest_once here lease_duration agent_id c w ≡ (ok duplicate, w)
  unfolding ingest_once
  known_again lease_duration agent_id c w h = rw (result_exists-has_result c w, h) refl

  abbrev Known : ProbeResultCommand → Db → Type 0
  Known c db = has_result c db ≡ true

  Keeps-Known :
      {A : Type 0} (c : ProbeResultCommand) (m : Action Db A)
      → ((rows : List ProbeResultRecord) → Keeps (Holds rows) m)
      → Keeps (Known c) m
  Keeps-Known c m k = record { at = λ w h. rw ((k w.db.probe_results).at w refl) h }

  insert_result-Known :
      (c : ProbeResultCommand) (agent_id : String) (at : Time) (db : Db) (t : Bool)
      → (insert_result (result_record c agent_id at) db).0 ≡ ok t
      → t ≡ true
      → Known c (insert_result (result_record c agent_id at) db).1
  unfolding insert_result result_record stored_result
  insert_result-Known c agent_id at db t e h = ground (
    arith,
    any-append (λ (r : ProbeResultRecord). str_eq r.id c.id || str_eq r.run_id c.run_id)
        db.probe_results (stored_result (result_record c agent_id at) ∷ []),
    eq_refl c.id,
  )

  resolve_run-spares :
      (id agent_id : String) (hash : List ℕ) (at : Time)
      → SparesResults (resolve_run id agent_id hash at)
  unfolding resolve_run
  resolve_run-spares id agent_id hash at db = refl

  settle-Known :
      (run : RunRecord) (agent_id : String) (c : ProbeResultCommand) (at : Time)
      → Ensures (λ _. Known c) (settle here run agent_id c at)
  unfolding settle
  settle-Known run agent_id c at =
      let r = result_record c agent_id at in
      let resolve : Query Db Bool = resolve_run run.id agent_id (env.hash_token c.lease_token) at in
      Ensures-guard (run_query (insert_result r)) conflict _
        (Ensures-run_query (insert_result r) (λ db t e. insert_result-Known c agent_id at db t e))
        λ u.
          Keeps-bind (run_query resolve) _
            (Keeps-Known c (run_query resolve) (λ rows.
              Keeps-query rows resolve
                (resolve_run-spares run.id agent_id (env.hash_token c.lease_token) at)))
            λ t. Keeps-ensure t (validation (("runId", "lease is no longer active") ∷ []))

  monitors_spare : (id : String) → SparesResults (get_monitor b.library id)
  unfolding get_monitor
  monitors_spare id db = refl

  health_spare :
      (monitor_id location_id : String) → SparesResults (get_location_health monitor_id location_id)
  unfolding get_location_health
  health_spare monitor_id location_id db = refl

  observe-Keeps :
      (rows : List ProbeResultRecord) (lease_duration : Duration) (run : RunRecord)
      (c : ProbeResultCommand)
      → Keeps (Holds rows) (observe here lease_duration run c)
  unfolding observe
  observe-Keeps rows lease_duration run c =
      let monitor_of : Query Db Monitor = get_monitor b.library run.monitor_id in
      let health_of : Query Db LocationHealth =
        get_location_health run.monitor_id run.location_id in
      Keeps-bind (run_query monitor_of) _
        (Keeps-query rows monitor_of (monitors_spare run.monitor_id))
        λ monitor.
          Keeps-bind (run_query health_of) _
            (Keeps-query rows health_of (health_spare run.monitor_id run.location_id))
            λ health.
              let h = observed_health lease_duration monitor c health in
              Keeps-bind (run_query (upsert_location_health h)) _
                (Keeps-query rows (upsert_location_health h)
                  (upsert_location_health-SparesResults h))
                λ u.
                  project_aggregate_and_incident-Keeps rows b env run.monitor_id c.finished_at false

  ingest-Known :
      (lease_duration : Duration) (agent_id : String) (c : ProbeResultCommand)
      → Ensures (λ _. Known c) (ingest here lease_duration agent_id c)
  unfolding ingest
  ingest-Known lease_duration agent_id c = Ensures-bind (run_query (get_run c.run_id)) _ λ run.
      Ensures-bind (ask env.now) _ λ at.
        Ensures-bind (lift (validate_result c run agent_id at)) _ λ u.
          let held = bytes_eq (env.hash_token c.lease_token) run.lease_token_hash in
          Ensures-bind (ensure held (validation (("leaseToken", "is invalid") ∷ []))) _ λ v.
            Ensures-then (settle here run agent_id c at) _ (settle-Known run agent_id c at) λ x.
              Keeps-Known c (observe here lease_duration run c)
                (λ rows. observe-Keeps rows lease_duration run c)

  ingest_new : Duration → String → ProbeResultCommand → Action Db ResultStatus
  ingest_new lease_duration agent_id c =
      ingest here lease_duration agent_id c >>= λ _. pure accepted

  fresh :
      (lease_duration : Duration) (agent_id : String) (c : ProbeResultCommand) (w : World Db)
      → has_result c w.db ≡ false
      → ingest_once here lease_duration agent_id c w ≡ ingest_new lease_duration agent_id c w
  unfolding ingest_once ingest_new
  fresh lease_duration agent_id c w h = rw (result_exists-has_result c w, h) refl

  ingest_new-Known :
      (lease_duration : Duration) (agent_id : String) (c : ProbeResultCommand)
      → Ensures (λ _. Known c) (ingest_new lease_duration agent_id c)
  unfolding ingest_new
  ingest_new-Known lease_duration agent_id c =
      Ensures-then (ingest here lease_duration agent_id c) (λ _. pure accepted)
        (ingest-Known lease_duration agent_id c) λ _. Keeps-pure accepted

  ingested :
      (lease_duration : Duration) (agent_id : String) (c : ProbeResultCommand) (w : World Db)
      (status : ResultStatus)
      → has_result c w.db ≡ false
      → (ingest_once here lease_duration agent_id c w).0 ≡ ok status
      → has_result c (ingest_once here lease_duration agent_id c w).1.db ≡ true
  ingested lease_duration agent_id c w status h e =
      let f = fresh lease_duration agent_id c w h in
      ap (λ (x : Result ResultStatus × World Db). has_result c x.1.db) f
      ∙ (ingest_new-Known lease_duration agent_id c).at w status
          (ap (λ (x : Result ResultStatus × World Db). x.0) (sym f) ∙ e)

  -- Uploading a result is idempotent: once an upload of it has succeeded, accepted or as a duplicate,
  -- the same upload directly after it, by any agent, is a duplicate and changes nothing.
  pub ingest_once-again :
      (lease_duration : Duration) (agent_id other_agent_id : String) (c : ProbeResultCommand)
      (w : World Db) (status : ResultStatus)
      → (ingest_once here lease_duration agent_id c w).0 ≡ ok status
      → let after = (ingest_once here lease_duration agent_id c w).1 in
        ingest_once here lease_duration other_agent_id c after ≡ (ok duplicate, after)
  ingest_once-again lease_duration agent_id other_agent_id c w status e =
      known_again lease_duration other_agent_id c (ingest_once here lease_duration agent_id c w).1
        (elim (Bool-cases (has_result c w.db)) [
          | inl h ↦
              ap (λ (x : Result ResultStatus × World Db). has_result c x.1.db)
                (known_again lease_duration agent_id c w h)
              ∙ h
          | inr h ↦ ingested lease_duration agent_id c w status h e
        ])
