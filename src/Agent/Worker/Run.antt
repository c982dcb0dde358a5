-- ===== src/Agent/Worker/Run.antt =====
-- RunOnce of agent/worker/worker.go and the functions that it calls.
use text.Mathlib.Text.{◌==◌ as str_eq}
use xisnove.Prelude.{
  ℕ, zero, suc, String, Bool, true, false, List, [], ◌∷◌, ◌++◌, Option, none, some, ltb, ◌==◌,
  length, take, if◌then◌else◌,
}
use xisnove.Prelude.Int.{pos, ◌*ℤ◌}
use xisnove.Result.{Error, ok, other}
use xisnove.Action.{World, Action, pure, raise, lift, run_query, ask, ask_or_fail, ◌>>=◌, ◌>>◌}
use xisnove.Domain.Monitor.{Duration}
use xisnove.Agent.Controlplane.{LeaseWorkRequest, ProbeWork, ProbeResultInput}
use xisnove.Agent.Worker.{
  Queue, queue_cap, Surroundings, Settings, nil_id, enabled_capabilities, unacknowledged_results,
  bearer, heartbeat_result, lease_result, Verdict, upload_verdict, generation_of, millisecond,
  next_backoff, drop, Outcome, after_round, then_ok, requeue, answered, refused, again,
}

module _ (outside : Surroundings) (settings : Settings) where
  unfoldable pub bearer_editor : Action Queue String
  unfolding bearer
  bearer_editor = do credential ← ask_or_fail outside.credential; lift (bearer credential)

  unfoldable pub heartbeat_with : String → Action Queue (Unit {0})
  unfolding heartbeat_result enabled_capabilities
  heartbeat_with editor = do
    reply ← ask λ n. outside.heartbeat n editor (record {
      version = settings.version;
      credential_generation = generation_of settings.credential_generation;
      capabilities = enabled_capabilities settings.capabilities;
    })
    lift (heartbeat_result reply)

  unfoldable pub send_heartbeat : Action Queue (Unit {0})
  unfolding bearer_editor
  send_heartbeat = do editor ← bearer_editor; heartbeat_with editor

  -- The identifier that the executor gave, or a new one.
  unfoldable pub identify : String → Action Queue String
  identify id = if str_eq id nil_id then ask outside.new_id else pure id

  -- The `select` between the context and the channel.
  unfoldable pub push : Option Error → ProbeResultInput → Action Queue (Unit {0})
  push none result = run_query (λ queue. (ok tt, queue ++ result ∷ []))
  push (some e) result = raise e

  unfoldable pub answer : Option ProbeWork → Action Queue Bool
  unfolding identify push
  answer none = pure false
  answer (some work) = do
    executed ← ask λ n. outside.execute n work
    id ← identify executed.result_id
    canceled ← ask outside.canceled
    push canceled
        (record executed { result_id = id; run_id = work.run_id; lease_token = work.lease_token })
    pure true

  unfoldable pub lease_request : Queue → LeaseWorkRequest
  unfolding enabled_capabilities
  lease_request queue = record {
    wait_seconds = if length queue == 0 then pos 30 else pos 0;
    capabilities = enabled_capabilities settings.capabilities;
  }

  unfoldable pub lease_with : String → Action Queue Bool
  unfolding lease_result answer
  lease_with editor = do
    queue ← run_query λ queue. (ok queue, queue)
    reply ← ask λ n. outside.lease n editor (lease_request queue)
    work ← lift (lease_result reply)
    answer work

  -- One round of the loop that leases: `false` where it breaks.
  unfoldable pub lease_one : Action Queue Bool
  unfolding bearer_editor
  lease_one = do editor ← bearer_editor; lease_with editor

  unfoldable pub lease_each : ℕ → World Queue → Outcome
  lease_each zero w = none
  lease_each (suc fuel) w =
      let (more, w') = lease_one w in
      let rest = lease_each fuel w' in
      if ltb (length w.db) queue_cap then after_round more w' rest else some (ok tt, w)

  unfoldable pub stop_if : Option Error → List ProbeResultInput → Action Queue Bool
  unfolding requeue
  stop_if none results = pure true
  stop_if (some e) results = do requeue results; raise e

  unfoldable pub settle_upload : Duration → List ProbeResultInput → Verdict → Action Queue Bool
  unfolding requeue unacknowledged_results stop_if
  settle_upload backoff results (answered acks) =
      let unacknowledged = unacknowledged_results results acks in
      if length unacknowledged == 0
      then pure false
      else do requeue unacknowledged; raise (other "upload probe result: acknowledgement missing")
  settle_upload backoff results refused = do
    requeue results
    raise (other "upload probe result: HTTP")
  settle_upload backoff results again = do
    canceled ← ask λ n. outside.canceled_before n backoff
    stop_if canceled results

  unfoldable pub upload_with : Duration → List ProbeResultInput → String → Action Queue Bool
  upload_with backoff results editor = do
    reply ← ask λ n. outside.upload n editor results
    settle_upload backoff results (upload_verdict reply)

  -- One round of the loop that uploads: `true` where it tries again.
  unfoldable pub upload_one : Duration → List ProbeResultInput → Action Queue Bool
  unfolding bearer_editor upload_verdict settle_upload
  upload_one backoff results = do editor ← bearer_editor; upload_with backoff results editor

  unfoldable pub upload_until_acknowledged :
      ℕ → Duration → List ProbeResultInput → World Queue → Outcome
  unfolding next_backoff
  upload_until_acknowledged zero backoff results w = none
  upload_until_acknowledged (suc fuel) backoff results w =
      let (more, w') = upload_one backoff results w in
      let rest = upload_until_acknowledged fuel (next_backoff backoff) results w' in
      after_round more w' rest

  -- The batch is all that the channel holds, 100 results at most.
  unfoldable pub upload_queued : ℕ → World Queue → Outcome
  upload_queued fuel w =
      if length w.db == 0
      then some (ok tt, w)
      else upload_until_acknowledged fuel (pos 100 *ℤ millisecond) (take 100 w.db)
          (record w { db = drop 100 w.db })

  unfoldable pub run_once : ℕ → World Queue → Outcome
  run_once fuel w =
      then_ok (some (send_heartbeat w))
        λ w1. then_ok (lease_each (suc queue_cap) w1) λ w2. upload_queued fuel w2
