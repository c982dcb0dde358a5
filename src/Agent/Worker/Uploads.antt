-- ===== src/Agent/Worker/Uploads.antt =====
-- What an upload of agent/worker/worker.go leaves in the queue.
use mathlib.Core.Path.{subst}
use xisnove.Prelude.{
  ℕ, zero, suc, ◌≡◌, refl, ap, ◌≢◌, String, Bool, true, false, List, [], ◌∷◌, ◌++◌, Option, none,
  some, arith, ◌==◌, length, Bool-cases, inl, inr,
}
use xisnove.Result.{Error, Result, ok, err, and_then}
use xisnove.Action.{World, lift, continue_with}
use xisnove.Domain.Monitor.{Duration}
use xisnove.Agent.Controlplane.{ProbeResultInput, ProbeResultAcknowledgement}
use xisnove.Agent.Worker.{
  Queue, Reply, unsent, status, Surroundings, Settings, Verdict, answered, refused, again, bearer,
  Outcome, after_round, upload_verdict, unacknowledged_results, requeue, next_backoff,
}
use xisnove.Agent.Worker.Run.{
  settle_upload, upload_one, upload_until_acknowledged, stop_if, bearer_editor, upload_with,
}

-- The reply of which `answered` is the verdict.
verdict_answered :
    (reply : Reply (List ProbeResultAcknowledgement)) (acks : List ProbeResultAcknowledgement)
    → upload_verdict reply ≡ answered acks
    → reply ≡ status 200 (some acks)
unfolding upload_verdict
verdict_answered (unsent e) acks h = absurd (ground (arith, h))
verdict_answered (status n none) acks h = absurd (ground (arith, h))
verdict_answered (status n (some body)) acks h = ground (arith, h)

pub some_injective {ℓ} : {A : Type ℓ} {x y : A} → some x ≡ some y → x ≡ y
some_injective h = cc

no_elements {ℓ} : {A : Type ℓ} (xs : List A) → length xs ≡ 0 → xs ≡ []
no_elements [] h = refl
no_elements (x ∷ xs) h = absurd (omega arith)

continue_lift :
    {A B : Type 0} (r : Result A) (f : A → Result B) (w : World Queue)
    → continue_with r (λ a. lift (f a)) w ≡ (and_then r f, w)
continue_lift (ok a) f w = refl
continue_lift (err e) f w = refl

pub bearer_editor_lem :
    (outside : Surroundings) (settings : Settings) (w : World Queue)
    → bearer_editor outside settings w
      ≡ (and_then (outside.credential w.asked) bearer, record w { asked = suc w.asked })
unfolding bearer_editor
bearer_editor_lem outside settings w =
    continue_lift (outside.credential w.asked) bearer (record w { asked = suc w.asked })

-- How an upload of `results` ends, with the queue before and after.
pub data Uploaded (outside : Surroundings) (results : List ProbeResultInput) (before after : Queue)
    : Result (Unit {0}) → Type 0 where
  unread :
      (n : ℕ) (e : Error)
      → and_then (outside.credential n) bearer ≡ err e
      → after ≡ before
      → Uploaded outside results before after (err e)
  cleared :
      (n : ℕ) (editor : String) (acks : List ProbeResultAcknowledgement)
      → outside.upload n editor results ≡ status 200 (some acks)
      → unacknowledged_results results acks ≡ []
      → after ≡ before
      → Uploaded outside results before after (ok tt)
  partial :
      (n : ℕ) (editor : String) (acks : List ProbeResultAcknowledgement) (e : Error)
      → outside.upload n editor results ≡ status 200 (some acks)
      → unacknowledged_results results acks ≢ []
      → after ≡ before ++ unacknowledged_results results acks
      → Uploaded outside results before after (err e)
  returned : (e : Error) → after ≡ before ++ results → Uploaded outside results before after (err e)

module _ (outside : Surroundings) (settings : Settings) (results : List ProbeResultInput) where
  -- After a round that asks first for the n-th time: it has ended the upload, or it leaves the queue as
  -- it is and has asked three times.
  abbrev pub Round : Queue → ℕ → Duration → Result Bool × World Queue → Type 0
  Round before n backoff (err e, w) = Uploaded outside results before w.db (err e)
  Round before n backoff (ok false, w) = Uploaded outside results before w.db (ok tt)
  Round before n backoff (ok true, w) =
      (w.db ≡ before)
      × (w.asked ≡ suc (suc (suc n)))
      × (outside.canceled_before (suc (suc n)) backoff ≡ none)

  stop-Round :
      (before : Queue) (n : ℕ) (backoff : Duration) (canceled : Option Error)
      → outside.canceled_before (suc (suc n)) backoff ≡ canceled
      → Round before n backoff (
          stop_if outside settings canceled results
            (record { db = before; asked = suc (suc (suc n)) }))
  unfolding stop_if requeue
  stop-Round before n backoff none h = (refl, refl, h)
  stop-Round before n backoff (some e) h = returned e refl

  settle-Round :
      (before : Queue) (n : ℕ) (backoff : Duration) (editor : String) (verdict : Verdict)
      → upload_verdict (outside.upload (suc n) editor results) ≡ verdict
      → Round before n backoff (
          settle_upload outside settings backoff results verdict
            (record { db = before; asked = suc (suc n) }))
  unfolding settle_upload requeue
  settle-Round before n backoff editor (answered acks) h =
      elim (Bool-cases (length (unacknowledged_results results acks) == 0)) [
        | inl none_left ↦ rw none_left (
            cleared (suc n) editor acks (verdict_answered _ acks h)
              (no_elements _ (ground (arith, none_left))) refl)
        | inr some_left ↦ rw some_left (
            partial (suc n) editor acks _ (verdict_answered _ acks h)
              (λ e. absurd (ground (arith, some_left, ap length e))) refl)
      ]
  settle-Round before n backoff editor refused h = returned _ refl
  settle-Round before n backoff editor again h =
      stop-Round before n backoff (outside.canceled_before (suc (suc n)) backoff) refl

  with_editor-Round :
      (before : Queue) (n : ℕ) (backoff : Duration) (editor : Result String)
      → and_then (outside.credential n) bearer ≡ editor
      → Round before n backoff (
          continue_with editor
            (upload_with outside settings backoff results)
            (record { db = before; asked = suc n }))
  unfolding upload_with settle_upload
  with_editor-Round before n backoff (err e) h = unread n e h refl
  with_editor-Round before n backoff (ok editor) h = settle-Round before n backoff editor _ refl

  pub upload_one-Round :
      (backoff : Duration) (w : World Queue)
      → Round w.db w.asked backoff (upload_one outside settings backoff results w)
  unfolding upload_one
  upload_one-Round backoff w =
      rw (bearer_editor_lem outside settings w)
        (with_editor-Round w.db w.asked backoff (and_then (outside.credential w.asked) bearer) refl)

  -- rounds
  round_ended :
      (r : Result Bool) (w w1 w2 : World Queue) (rest : Outcome) (n : ℕ) (backoff : Duration)
      (end : Result (Unit {0}))
      → Round w.db n backoff (r, w1)
      → after_round r w1 rest ≡ some (end, w2)
      → (w1.db ≡ w.db → rest ≡ some (end, w2) → Uploaded outside results w.db w2.db end)
      → Uploaded outside results w.db w2.db end
  round_ended (err e) w w1 w2 rest n backoff end h eq more =
      subst (λ (p : Result (Unit {0}) × World Queue). Uploaded outside results w.db p.1.db p.0)
        (some_injective eq) h
  round_ended (ok false) w w1 w2 rest n backoff end h eq more =
      subst (λ (p : Result (Unit {0}) × World Queue). Uploaded outside results w.db p.1.db p.0)
        (some_injective eq) h
  round_ended (ok true) w w1 w2 rest n backoff end h eq more = more h.0 eq

  -- An upload
  pub upload_until_acknowledged-Uploaded :
      (fuel : ℕ) (backoff : Duration) (w w2 : World Queue) (end : Result (Unit {0}))
      → upload_until_acknowledged outside settings fuel backoff results w ≡ some (end, w2)
      → Uploaded outside results w.db w2.db end
  unfolding upload_until_acknowledged
  upload_until_acknowledged-Uploaded zero backoff w w2 end h = absurd (ground (arith, h))
  upload_until_acknowledged-Uploaded (suc fuel) backoff w w2 end h =
      let round = upload_one outside settings backoff results w in
      round_ended round.0 w round.1 w2 _ w.asked backoff end (upload_one-Round backoff w) h
        λ same e.
          subst (λ queue. Uploaded outside results queue w2.db end) same
            (upload_until_acknowledged-Uploaded fuel (next_backoff backoff) round.1 w2 end e)
