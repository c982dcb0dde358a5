-- ===== src/Agent/Worker/Accounts.antt =====
-- What becomes of the results in a pass of RunOnce in agent/worker/worker.go.
use mathlib.Core.Path.{subst}
use xisnove.Prelude.{
  ℕ, suc, ◌≡◌, refl, sym, ap, ◌≤◌, ◌<◌, [], ◌++◌, some, arith, ◌==◌, length, take, Bool-cases, inl,
  inr, All, ◌⊎◌,
}
use xisnove.Result.{Error, Result, ok, err, and_then}
use xisnove.Action.{World}
use xisnove.Agent.Worker.{Queue, Surroundings, Settings, bearer, queue_cap, Outcome, then_ok, drop}
use xisnove.Agent.Worker.Run.{
  send_heartbeat, lease_each, upload_one, upload_until_acknowledged, upload_queued, run_once,
}
use xisnove.Agent.Worker.Uploads.{
  Uploaded, upload_until_acknowledged-Uploaded, some_injective, bearer_editor_lem,
}
use xisnove.Agent.Worker.Leases.{IsAnswer, Answered, unchanged, lease_each-Ended}
use xisnove.Agent.Worker.Rounds.{take_within, drop_within, Uploaded-length, send_heartbeat-db}

-- What a pass makes of the results that were queued before, and of its answers: they are queued
-- still, or were uploaded as one batch.
pub record Accounts (outside : Surroundings) (before after : Queue) (end : Result (Unit {0}))
    : Type 0 where
  pub answers : Queue
  pub genuine : All (IsAnswer outside) answers
  pub room : length (before ++ answers) ≤ queue_cap
  pub disposed : (after ≡ before ++ answers) ⊎ Uploaded outside (before ++ answers) [] after end

module _ (outside : Surroundings) (settings : Settings) where
  -- The results that were queued before and in this pass, `queue`, are queued still, or were uploaded.
  abbrev Disposed : Queue → Outcome → Type 0
  Disposed queue outcome =
      (end : Result (Unit {0})) (after : World Queue)
      → outcome ≡ some (end, after)
      → (after.db ≡ queue) ⊎ Uploaded outside queue [] after.db end

  upload_queued-Disposed :
      (fuel : ℕ) (w : World Queue)
      → length w.db ≤ queue_cap
      → Disposed w.db (upload_queued outside settings fuel w)
  unfolding upload_queued
  upload_queued-Disposed fuel w room end after h = elim (Bool-cases (length w.db == 0)) [
    | inl nothing ↦ inl (
        ap (λ (p : Result (Unit {0}) × World Queue). p.1.db)
          (sym (some_injective (rw nothing at h))))
    | inr queued ↦ inr (
        subst (λ queue. Uploaded outside queue [] after.db end) (take_within queue_cap w.db room)
          (subst (λ queue. Uploaded outside (take queue_cap w.db) queue after.db end)
            (drop_within queue_cap w.db room)
            (upload_until_acknowledged-Uploaded outside settings (take queue_cap w.db) fuel _ _
              after end (rw queued at h))))
  ]

  -- A pass that ends without an upload.
  unsent_pass :
      (before after : Queue) (end : Result (Unit {0}))
      → Answered outside settings before after
      → Accounts outside before after end
  unsent_pass before after end h = record {
    answers = h.answers;
    genuine = h.genuine;
    room = omega (arith, ap length h.appended, h.bounded);
    disposed = inl h.appended;
  }

  uploaded_pass :
      (before middle : Queue) (end : Result (Unit {0})) (after : World Queue)
      → Answered outside settings before middle
      → (after.db ≡ middle) ⊎ Uploaded outside middle [] after.db end
      → Accounts outside before after.db end
  uploaded_pass before middle end after h disposed = record {
    answers = h.answers;
    genuine = h.genuine;
    room = omega (arith, ap length h.appended, h.bounded);
    disposed =
        subst (λ queue. (after.db ≡ queue) ⊎ Uploaded outside queue [] after.db end) h.appended
          disposed;
  }

  leased_Accounts :
      (r : Result (Unit {0})) (before : Queue) (w : World Queue) (f : World Queue → Outcome)
      → Answered outside settings before w.db
      → Disposed w.db (f w)
      → (end : Result (Unit {0})) (after : World Queue)
      → then_ok (some (r, w)) f ≡ some (end, after)
      → Accounts outside before after.db end
  leased_Accounts (err e) before w f h disposed end after same =
      subst (λ (p : Result (Unit {0}) × World Queue). Accounts outside before p.1.db p.0)
        (some_injective same) (unsent_pass before w.db (err e) h)
  leased_Accounts (ok u) before w f h disposed end after same =
      uploaded_pass before w.db end after h (disposed end after same)

  started_Accounts :
      (r : Result (Unit {0})) (w : World Queue) (fuel : ℕ)
      → length w.db ≤ queue_cap
      → (end : Result (Unit {0})) (after : World Queue)
      → then_ok (some (r, w)) (λ w1.
        then_ok
          (lease_each outside settings (suc queue_cap) w1)
          λ w2. upload_queued outside settings fuel w2)
        ≡ some (end, after)
      → Accounts outside w.db after.db end
  started_Accounts (err e) w fuel room end after same =
      subst (λ (p : Result (Unit {0}) × World Queue). Accounts outside w.db p.1.db p.0)
        (some_injective same)
        (unsent_pass w.db w.db (err e) (unchanged outside settings w.db w.db refl room))
  started_Accounts (ok u) w fuel room end after same =
      let (stop, w2, leased, answered) =
        lease_each-Ended outside settings (suc queue_cap) w room (omega arith) in
      leased_Accounts stop w.db w2 _ answered (upload_queued-Disposed fuel w2 answered.bounded) end
        after (rw leased at same)

  -- A pass that starts with at most 100 queued results, and returns, leases work, and each of its answers
  -- carries the run and the token of a work that the control plane leased. With the answers there are at
  -- most 100 results. Either they are all queued, in their order, or they were uploaded as one batch, and
  -- no others are queued: then the credential could not be read, and the queue is empty; or a response
  -- acknowledged them all; or the queue holds those that a response did not acknowledge; or it holds
  -- them all.
  pub run_once-Accounts :
      (fuel : ℕ) (w after : World Queue) (end : Result (Unit {0}))
      → length w.db ≤ queue_cap
      → run_once outside settings fuel w ≡ some (end, after)
      → Accounts outside w.db after.db end
  unfolding run_once
  run_once-Accounts fuel w after end room h =
      subst (λ queue. Accounts outside queue after.db end) (send_heartbeat-db outside settings w)
        (started_Accounts (send_heartbeat outside settings w).0
          (send_heartbeat outside settings w).1 fuel
          (omega (arith, room, ap length (send_heartbeat-db outside settings w))) end after h)

Accounts-length :
    {outside : Surroundings} (before after : Queue) (end : Result (Unit {0}))
    → Accounts outside before after end
    → length after ≤ queue_cap
Accounts-length before after end h = elim h.disposed [
  | inl kept ↦ omega (arith, ap length kept, h.room)
  | inr uploaded ↦
      omega (arith, Uploaded-length (before ++ h.answers) [] after end uploaded, h.room)
]

-- The channel stays within its capacity of 100: a pass that starts with at most 100 queued results, and
-- returns, ends with at most 100.
pub run_once-bounded :
    (outside : Surroundings) (settings : Settings) (fuel : ℕ) (w after : World Queue)
    (end : Result (Unit {0}))
    → length w.db ≤ queue_cap
    → run_once outside settings fuel w ≡ some (end, after)
    → length after.db ≤ queue_cap
run_once-bounded outside settings fuel w after end room h =
    Accounts-length w.db after.db end (run_once-Accounts outside settings fuel w after end room h)

-- An upload loses its batch when the credential cannot be read: if between 1 and 100 results are queued,
-- and the first reading of the credential for the upload fails, the pass ends with that error and an
-- empty queue, and nothing was sent.
pub upload_queued_lost :
    (outside : Surroundings) (settings : Settings) (fuel : ℕ) (w : World Queue) (e : Error)
    → 0 < length w.db
    → length w.db ≤ queue_cap
    → and_then (outside.credential w.asked) bearer ≡ err e
    → upload_queued outside settings (suc fuel) w
      ≡ some (err e, record { db = []; asked = suc w.asked })
unfolding upload_queued upload_until_acknowledged upload_one
upload_queued_lost outside settings fuel w e some_queued room unread =
    elim (Bool-cases (length w.db == 0)) [
      | inl nothing ↦ absurd (ground (arith, nothing))
      | inr queued ↦
          rw
            (
              queued,
              bearer_editor_lem outside settings (record w { db = drop queue_cap w.db }),
              unread,
              drop_within queue_cap w.db room,
            )
            refl
    ]
