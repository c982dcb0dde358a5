-- ===== src/Agent/Worker/Rounds.antt =====
-- RunOnce of agent/worker/worker.go: that it returns, and what becomes of the results.
use xisnove.Prelude.{
  ℕ, zero, suc, ◌≡◌, refl, sym, ap, ◌∙◌, ◌+◌, ◌≤◌, ◌<◌, String, Bool, true, false, List, [], ◌∷◌,
  none, some, arith, leb, ◌==◌, length, length-append, take, Bool-cases, inl, inr,
}
use xisnove.Result.{Error, Result, ok, err, and_then}
use xisnove.Action.{World, continue_with}
use xisnove.Domain.Monitor.{Duration}
use xisnove.Agent.Controlplane.{ProbeResultInput, ProbeResultAcknowledgement}
use xisnove.Agent.Worker.{
  Queue, Surroundings, Settings, bearer, queue_cap, Outcome, after_round, then_ok, next_backoff,
  drop, unacknowledged_results,
}
use xisnove.Agent.Worker.Run.{
  send_heartbeat, heartbeat_with, upload_one, upload_until_acknowledged, upload_queued, run_once,
}
use xisnove.Agent.Worker.Uploads.{
  Uploaded, Round, upload_one-Round, unread, cleared, partial, returned, bearer_editor_lem,
}
use xisnove.Agent.Worker.Leases.{lease_each-Ended}

length-unacknowledged_results :
    (results : List ProbeResultInput) (acks : List ProbeResultAcknowledgement)
    → length (unacknowledged_results results acks) ≤ length results
unfolding unacknowledged_results
length-unacknowledged_results [] acks = omega arith
length-unacknowledged_results (r ∷ rest) acks =
    ground (arith, length-unacknowledged_results rest acks)

-- An upload puts at most its batch back.
pub Uploaded-length :
    {outside : Surroundings} (results : List ProbeResultInput) (before after : Queue)
    (end : Result (Unit {0}))
    → Uploaded outside results before after end
    → length after ≤ length before + length results
Uploaded-length results before after _ (unread n e h same) = omega (arith, ap length same)
Uploaded-length results before after _ (cleared n ed acks h none_left same) =
    omega (arith, ap length same)
Uploaded-length results before after _ (partial n ed acks e h some_left kept) = omega (
  arith,
  ap length kept,
  length-append before (unacknowledged_results results acks),
  length-unacknowledged_results results acks,
)
Uploaded-length results before after _ (returned e kept) =
    omega (arith, ap length kept, length-append before results)

pub take_within {ℓ} : {A : Type ℓ} (n : ℕ) (xs : List A) → length xs ≤ n → take n xs ≡ xs
take_within zero [] h = refl
take_within zero (x ∷ xs) h = absurd (omega arith)
take_within (suc n) [] h = refl
take_within (suc n) (x ∷ xs) h = ap (λ rest. x ∷ rest) (take_within n xs (omega arith))

pub drop_within : (n : ℕ) (q : Queue) → length q ≤ n → drop n q ≡ []
drop_within zero [] h = refl
drop_within zero (x ∷ xs) h = absurd (omega arith)
drop_within (suc n) [] h = refl
drop_within (suc n) (x ∷ xs) h = drop_within n xs (omega arith)

-- The context is done from the question with this number on, for every wait of an upload.
abbrev pub DoneFrom : Surroundings → ℕ → Type 0
DoneFrom outside limit =
    (n : ℕ) (backoff : Duration)
    → limit ≤ n
    → (e : Error) × (outside.canceled_before n backoff ≡ some e)

abbrev pub Returns : Outcome → Type 0
Returns outcome = (end : Result (Unit {0})) × (after : World Queue) × (outcome ≡ some (end, after))

module _ (outside : Surroundings) (settings : Settings) where
  -- A wait that went on was asked for before the context was done.
  waited :
      (limit n : ℕ) (backoff : Duration) (w : World Queue)
      → DoneFrom outside limit
      → outside.canceled_before (suc (suc n)) backoff ≡ none
      → w.asked ≡ suc (suc (suc n))
      → w.asked ≤ limit
  waited limit n backoff w done waits asked = elim (Bool-cases (leb limit (suc (suc n)))) [
    | inl late ↦
        let (e, h) = done (suc (suc n)) backoff (ground (arith, late)) in
        absurd (ground (arith, sym waits ∙ h))
    | inr early ↦ ground (arith, early, asked)
  ]

  after_round-Returns :
      (results : List ProbeResultInput) (limit n : ℕ) (backoff : Duration) (before : Queue)
      (r : Result Bool) (w : World Queue) (rest : Outcome)
      → DoneFrom outside limit
      → Round outside settings results before n backoff (r, w)
      → (w.asked ≤ limit → w.asked ≡ suc (suc (suc n)) → Returns rest)
      → Returns (after_round r w rest)
  after_round-Returns results limit n backoff before (err e) w rest done h more = (err e, w, refl)
  after_round-Returns results limit n backoff before (ok false) w rest done h more =
      (ok tt, w, refl)
  after_round-Returns results limit n backoff before (ok true) w rest done (same, asked, waits)
        more =
      more (waited limit n backoff w done waits asked) asked

  upload_until_acknowledged-Returns :
      (fuel limit : ℕ) (backoff : Duration) (results : List ProbeResultInput) (w : World Queue)
      → DoneFrom outside limit
      → 0 < fuel
      → limit < fuel + w.asked
      → Returns (upload_until_acknowledged outside settings fuel backoff results w)
  unfolding upload_until_acknowledged
  upload_until_acknowledged-Returns zero limit backoff results w done some_fuel enough =
      absurd (omega arith)
  upload_until_acknowledged-Returns (suc fuel) limit backoff results w done some_fuel enough =
      after_round-Returns results limit w.asked backoff w.db _
        (upload_one outside settings backoff results w).1 _ done
        (upload_one-Round outside settings results backoff w)
        λ early asked.
          upload_until_acknowledged-Returns fuel limit (next_backoff backoff) results _ done
            (omega arith) (omega arith)

  sent-db :
      (editor : Result String) (w : World Queue)
      → (continue_with editor (heartbeat_with outside settings) w).1.db ≡ w.db
  unfolding heartbeat_with
  sent-db (err e) w = refl
  sent-db (ok editor) w = refl

  -- The heartbeat leaves the queue alone.
  pub send_heartbeat-db : (w : World Queue) → (send_heartbeat outside settings w).1.db ≡ w.db
  unfolding send_heartbeat
  send_heartbeat-db w =
      rw (bearer_editor_lem outside settings w)
        (sent-db (and_then (outside.credential w.asked) bearer) (record w { asked = suc w.asked }))

  upload_queued-Returns :
      (fuel limit : ℕ) (w : World Queue)
      → DoneFrom outside limit
      → limit < fuel
      → Returns (upload_queued outside settings fuel w)
  unfolding upload_queued
  upload_queued-Returns fuel limit w done enough = elim (Bool-cases (length w.db == 0)) [
    | inl nothing ↦ rw nothing (ok tt, w, refl)
    | inr queued ↦
        rw queued
          (upload_until_acknowledged-Returns fuel limit _ _ _ done (omega arith) (omega arith))
  ]

  -- The passage from one part of RunOnce to the next.
  then_ok-Returns :
      (r : Result (Unit {0})) (w : World Queue) (f : World Queue → Outcome)
      → Returns (f w)
      → Returns (then_ok (some (r, w)) f)
  then_ok-Returns (err e) w f h = (err e, w, refl)
  then_ok-Returns (ok u) w f h = h

  -- RunOnce returns if the context is done at some time: let at most 100 results be queued, and let every
  -- wait of an upload after the question `limit` find the context done. Then `limit + 1` rounds of the
  -- upload, behind the rounds that lease work, of which there are at most 101, bring a pass to its end.
  pub run_once-Returns :
      (fuel limit : ℕ) (w : World Queue)
      → DoneFrom outside limit
      → limit < fuel
      → length w.db ≤ queue_cap
      → Returns (run_once outside settings fuel w)
  unfolding run_once
  run_once-Returns fuel limit w done enough room =
      let w1 = (send_heartbeat outside settings w).1 in
      let (end, w2, leased, answered) =
        lease_each-Ended outside settings (suc queue_cap) w1
          (omega (arith, ap length (send_heartbeat-db w))) (omega arith) in
      then_ok-Returns (send_heartbeat outside settings w).0 w1 _
        (rw leased (then_ok-Returns end w2 _ (upload_queued-Returns fuel limit w2 done enough)))
