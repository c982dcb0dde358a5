-- ===== src/Agent/Worker/Leases.antt =====
-- What the rounds of agent/worker/worker.go that lease work leave in the queue.
use text.Mathlib.Text.{◌==◌ as str_eq}
use mathlib.Core.List.{append_assoc, append-nil}
use xisnove.Prelude.{
  ℕ, zero, suc, ◌≡◌, refl, sym, ap, ◌∙◌, ◌+◌, ◌≤◌, ◌<◌, String, Bool, true, false, [], ◌∷◌, ◌++◌,
  Option, none, some, arith, ltb, length, length-append, Bool-cases, inl, inr, All,
}
use xisnove.Result.{Error, Result, ok, err, and_then}
use xisnove.Action.{World, pure, continue_with, ◌>>◌}
use xisnove.Agent.Controlplane.{ProbeResultInput, ProbeWork, LeaseWorkRequest}
use xisnove.Agent.Worker.{
  Queue, Reply, unsent, status, Surroundings, Settings, bearer, queue_cap, Outcome, after_round,
  lease_result, nil_id,
}
use xisnove.Agent.Worker.Run.{
  answer, identify, push, lease_one, lease_each, lease_with, lease_request,
}
use xisnove.Agent.Worker.Uploads.{bearer_editor_lem}

-- The reply that gives work.
work_leased :
    (reply : Reply ProbeWork) (work : ProbeWork)
    → lease_result reply ≡ ok (some work)
    → reply ≡ status 200 (some work)
unfolding lease_result
work_leased (unsent e) work h = absurd (ground (arith, h))
work_leased (status n none) work h = absurd (ground (arith, h))
work_leased (status n (some body)) work h = ground (arith, h)

module _ (outside : Surroundings) where
  -- The result belongs to a run that the control plane leased, under the lease's token.
  pub record IsAnswer (result : ProbeResultInput) : Type 0 where
    pub asked : ℕ
    pub editor : String
    pub request : LeaseWorkRequest
    pub work : ProbeWork
    pub leased : outside.lease asked editor request ≡ status 200 (some work)
    pub run : result.run_id ≡ work.run_id
    pub token : result.lease_token ≡ work.lease_token

  module _ (settings : Settings) where
    -- A round that goes on has added one answer; any other leaves the queue as it is.
    abbrev Round : Queue → Result Bool × World Queue → Type 0
    Round before (err e, w) = w.db ≡ before
    Round before (ok false, w) = w.db ≡ before
    Round before (ok true, w) =
        (result : ProbeResultInput) × IsAnswer result × (w.db ≡ before ++ result ∷ [])

    identify_lem :
        (before : Queue) (id : String) (n : ℕ)
        → (given : String) × (m : ℕ) × (identify outside settings id
              (record { db = before; asked = n })
            ≡ (ok given, record { db = before; asked = m }))
    unfolding identify
    identify_lem before id n = elim (Bool-cases (str_eq id nil_id)) [
      | inl nil ↦ (outside.new_id n, suc n, rw nil refl)
      | inr given ↦ (id, n, rw given refl)
    ]

    push-Round :
        (before : Queue) (n : ℕ) (canceled : Option Error) (result : ProbeResultInput)
        → IsAnswer result
        → Round before (
            (push outside settings canceled result >> pure true)
              (record { db = before; asked = suc n }))
    unfolding push
    push-Round before n none result h = (result, h, refl)
    push-Round before n (some e) result h = refl

    answer-Round :
        (before : Queue) (n k : ℕ) (editor : String) (request : LeaseWorkRequest)
        (work : Option ProbeWork)
        → lease_result (outside.lease n editor request) ≡ ok work
        → Round before (answer outside settings work (record { db = before; asked = k }))
    unfolding answer
    answer-Round before n k editor request none h = refl
    answer-Round before n k editor request (some work) h =
        let executed = outside.execute k work in
        let (id, m, e) = identify_lem before executed.result_id (suc k) in
        rw e (
          push-Round before m (outside.canceled m)
            (record executed {
              result_id = id;
              run_id = work.run_id;
              lease_token = work.lease_token;
            })
            (record {
              asked = n;
              editor = editor;
              request = request;
              work = work;
              leased = work_leased _ work h;
              run = refl;
              token = refl;
            }))

    replied-Round :
        (before : Queue) (k : ℕ) (editor : String) (request : LeaseWorkRequest)
        (work : Result (Option ProbeWork))
        → lease_result (outside.lease k editor request) ≡ work
        → Round before
            (continue_with work (answer outside settings) (record { db = before; asked = suc k }))
    replied-Round before k editor request (err e) h = refl
    replied-Round before k editor request (ok work) h =
        answer-Round before k (suc k) editor request work h

    lease_with-Round :
        (before : Queue) (k : ℕ) (editor : Result String)
        → Round before
            (continue_with editor (lease_with outside settings) (record { db = before; asked = k }))
    unfolding lease_with
    lease_with-Round before k (err e) = refl
    lease_with-Round before k (ok editor) =
        replied-Round before k editor (lease_request outside settings before) _ refl

    lease_one-Round : (w : World Queue) → Round w.db (lease_one outside settings w)
    unfolding lease_one
    lease_one-Round w =
        rw (bearer_editor_lem outside settings w)
          (lease_with-Round w.db (suc w.asked) (and_then (outside.credential w.asked) bearer))

    -- How a run of rounds ends: the queue is as before, with answers behind, and within its capacity.
    pub record Answered (before after : Queue) : Type 0 where
      pub answers : Queue
      pub appended : after ≡ before ++ answers
      pub genuine : All IsAnswer answers
      pub bounded : length after ≤ queue_cap

    abbrev pub Ended : World Queue → Outcome → Type 0
    Ended w outcome =
        (end : Result (Unit {0})) × (after : World Queue) × (outcome ≡ some (end, after))
        × Answered w.db after.db

    pub unchanged :
        (before after : Queue) → after ≡ before → length before ≤ queue_cap → Answered before after
    unchanged before after e room = record {
      answers = [];
      appended = e ∙ sym (append-nil before);
      genuine = tt;
      bounded = rw e room;
    }

    -- The answers of the later rounds behind the one of the first.
    behind :
        (before middle after : Queue) (result : ProbeResultInput)
        → IsAnswer result
        → middle ≡ before ++ result ∷ []
        → Answered middle after
        → Answered before after
    behind before middle after result h e later = record {
      answers = result ∷ later.answers;
      appended =
          later.appended
          ∙ ap (λ queue. queue ++ later.answers) e
          ∙ append_assoc before (result ∷ []) later.answers;
      genuine = (h, later.genuine);
      bounded = later.bounded;
    }

    after_round-Ended :
        (r : Result Bool) (w w1 : World Queue) (rest : Outcome)
        → length w.db < queue_cap
        → Round w.db (r, w1)
        → (length w1.db ≡ suc (length w.db) → Ended w1 rest)
        → Ended w (after_round r w1 rest)
    after_round-Ended (err e) w w1 rest room h more =
        (err e, w1, refl, unchanged w.db w1.db h (omega arith))
    after_round-Ended (ok false) w w1 rest room h more =
        (ok tt, w1, refl, unchanged w.db w1.db h (omega arith))
    after_round-Ended (ok true) w w1 rest room (result, h, e) more =
        let (end, after, same, later) =
          more (omega (arith, ap length e, length-append w.db (result ∷ []))) in
        (end, after, same, behind w.db w1.db after.db result h e later)

    -- With more fuel than the queue has room for, the rounds end.
    pub lease_each-Ended :
        (fuel : ℕ) (w : World Queue)
        → length w.db ≤ queue_cap
        → queue_cap < fuel + length w.db
        → Ended w (lease_each outside settings fuel w)
    unfolding lease_each
    lease_each-Ended zero w room enough = absurd (omega arith)
    lease_each-Ended (suc fuel) w room enough = elim (Bool-cases (ltb (length w.db) queue_cap)) [
      | inl more ↦ rw more (
          after_round-Ended (lease_one outside settings w).0 w (lease_one outside settings w).1 _
            (ground (arith, more)) (lease_one-Round w)
            λ grown. lease_each-Ended fuel _ (ground (arith, more)) (omega arith))
      | inr full ↦ rw full (ok tt, w, refl, unchanged w.db w.db refl room)
    ]
