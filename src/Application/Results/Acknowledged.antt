-- ===== src/Application/Results/Acknowledged.antt =====
-- What `UploadBatch` of internal/application/results.go acknowledges.
use xisnove.Prelude.{
  ◌≤◌, ◌≡◌, refl, ap, String, List, [], ◌∷◌, map, length, arith, Bool-cases, inl, inr, ltb, ◌||◌,
  ◌==◌,
}
use xisnove.Result.{ok}
use xisnove.Action.{World}
use xisnove.Action.Meets.{Meets, Meets-pure, Meets-bind}
use xisnove.Domain.Monitor.{Duration}
use xisnove.Application.Environment.{Environment}
use xisnove.Application.Store.{within_tx}
use xisnove.Application.Results.{
  ProbeResultCommand, ResultAcknowledgement, ingest_once, upload_each, upload_batch,
}

abbrev pub acknowledged : List ResultAcknowledgement → List String
acknowledged = map (λ (a : ResultAcknowledgement). a.result_id)

abbrev pub sent : List ProbeResultCommand → List String
sent = map (λ (c : ProbeResultCommand). c.id)

module _ {D : Type 0} (env : Environment D) (lease_duration : Duration) (agent_id : String) where
  upload_each-Meets :
      (commands : List ProbeResultCommand)
      → Meets
          (λ d. Unit)
          (upload_each env lease_duration agent_id commands)
          (λ acks d. acknowledged acks ≡ sent commands)
  unfolding upload_each
  upload_each-Meets [] = Meets-pure [] (λ d p. refl)
  upload_each-Meets (c ∷ rest) =
      Meets-bind (λ status d. Unit)
        (within_tx env.store (ingest_once env lease_duration agent_id c)) _
        (record { at = λ w a p e. tt })
        λ status.
          Meets-bind (λ acks d. acknowledged acks ≡ sent rest)
            (upload_each env lease_duration agent_id rest) _ (upload_each-Meets rest)
            λ acks.
              Meets-pure (record { result_id = c.id; status = status } ∷ acks)
                (λ d p. ap (λ ids. c.id ∷ ids) p)

  -- A batch that is accepted has between 1 and 100 results, and every one of them is acknowledged, in
  -- the order in which they were sent.
  pub upload_batch-acknowledged :
      (commands : List ProbeResultCommand) (acks : List ResultAcknowledgement) (w : World D)
      → (upload_batch env lease_duration agent_id commands w).0 ≡ ok acks
      → (1 ≤ length commands) × (length commands ≤ 100) × (acknowledged acks ≡ sent commands)
  unfolding upload_batch
  upload_batch-acknowledged commands acks w e =
      elim (Bool-cases (length commands == 0 || ltb 100 (length commands))) [
        | inl out ↦ absurd (ground (arith, e, out))
        | inr fits ↦ (
          ground (arith, fits),
          ground (arith, fits),
          (upload_each-Meets commands).at w acks tt (rw fits at e),
        )
      ]
