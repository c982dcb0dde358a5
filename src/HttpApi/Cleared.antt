-- ===== src/HttpApi/Cleared.antt =====
-- The answer of internal/adapters/httpapi/results.go to the batch of a worker.
use text.Mathlib.TextPositions.{eq_refl}
use mathlib.Core.Path.{subst}
use xisnove.Prelude.{
  ℕ, ◌≡◌, refl, sym, ap, ◌∙◌, String, true, List, [], ◌∷◌, Option, none, some, map, arith, All,
}
use xisnove.Result.{Result, Error, ok, err, invalid_credentials}
use xisnove.Action.{World}
use xisnove.Domain.Monitor.{Duration}
use xisnove.Application.Environment.{
  Environment, Principal, PrincipalKind, principal_agent, principal_admin,
}
use xisnove.Application.Results as application
use xisnove.Application.Results.{ResultStatus, upload_batch, ResultAcknowledgement}
use xisnove.Application.Results.Acknowledged.{upload_batch-acknowledged, acknowledged, sent}
use xisnove.Agent.Controlplane.{ProbeResultInput, ProbeResultAcknowledgement}
use xisnove.Agent.Worker.{is_acknowledged, unacknowledged_results}
use xisnove.HttpApi.Problems.{Problem, problem_from_error}
use xisnove.HttpApi.Results.{
  body, api_status, to_command, to_commands, from_error, problem_or, body_or, as_agent, parsed,
  to_acknowledgements, answered, uploaded, upload_probe_results,
}

-- uuid.Parse reads a text that it wrote.
abbrev pub Parses : (String → Option String) → String → Type 0
Parses parse_uuid id = parse_uuid id ≡ some id

abbrev Known : List ProbeResultAcknowledgement → String → Type 0
Known acks id = is_acknowledged acks id ≡ true

All-weaken :
    (a : ProbeResultAcknowledgement) (acks : List ProbeResultAcknowledgement) (ids : List String)
    → All (Known acks) ids
    → All (Known (a ∷ acks)) ids
unfolding is_acknowledged
All-weaken a acks [] h = tt
All-weaken a acks (id ∷ rest) (near, far) = (ground (arith, near), All-weaken a acks rest far)

Known-first :
    (id : String) (s : ResultStatus) (acks : List ProbeResultAcknowledgement)
    → Known (record { result_id = id; status = api_status s } ∷ acks) id
unfolding is_acknowledged
Known-first id application.accepted acks = rw (eq_refl id) refl
Known-first id application.duplicate acks = rw (eq_refl id) refl

ok_injective {ℓ} : {A : Type ℓ} {x y : A} → ok x ≡ ok y → x ≡ y
ok_injective h = cc

pub body_injective : {A : Type 0} {x y : A} → body x ≡ body y → x ≡ y
body_injective h = cc

-- Acknowledgements are given for the identifiers that they were made of.
Known-mapped :
    (parse_uuid : String → Option String) (acks : List ResultAcknowledgement)
    (mapped : List ProbeResultAcknowledgement)
    → All (Parses parse_uuid) (acknowledged acks)
    → to_acknowledgements parse_uuid acks ≡ ok mapped
    → All (Known mapped) (acknowledged acks)
unfolding to_acknowledgements
Known-mapped parse_uuid [] mapped h e = tt
Known-mapped parse_uuid (a ∷ rest) mapped (near, far) e =
    next (to_acknowledgements parse_uuid rest) (Known-mapped parse_uuid rest) (rw near at e)
  where
    next :
        (others : Result (List ProbeResultAcknowledgement))
        → ((m : List ProbeResultAcknowledgement)
            → All (Parses parse_uuid) (acknowledged rest)
            → others ≡ ok m
            → All (Known m) (acknowledged rest))
        → parsed (some a.result_id) a.status others ≡ ok mapped
        → All (Known mapped) (a.result_id ∷ acknowledged rest)
    next (err x) more e = absurd (ground (arith, e))
    next (ok m) more e =
        subst (λ k. All (Known k) (a.result_id ∷ acknowledged rest)) (ok_injective e)
          (Known-first a.result_id a.status m, All-weaken _ m _ (more m far refl))

abbrev pub result_ids : List ProbeResultInput → List String
result_ids = map (λ (r : ProbeResultInput). r.result_id)

sent-to_commands :
    (results : List ProbeResultInput) → sent (to_commands results) ≡ result_ids results
unfolding to_commands to_command
sent-to_commands [] = refl
sent-to_commands (r ∷ rest) = ap (λ ids. r.result_id ∷ ids) (sent-to_commands rest)

none_unacknowledged :
    (results : List ProbeResultInput) (acks : List ProbeResultAcknowledgement)
    → All (Known acks) (result_ids results)
    → unacknowledged_results results acks ≡ []
unfolding unacknowledged_results
none_unacknowledged [] acks h = refl
none_unacknowledged (r ∷ rest) acks (near, far) = rw near (none_unacknowledged rest acks far)

pub from_error-not-body : {A : Type 0} (e : Error) (a : A) → from_error {A = A} e ≡ body a → ⊥
unfolding from_error
from_error-not-body e a h = none_of (problem_from_error e) h
  where
    none_of : (o : Option (Problem × ℕ)) → problem_or e o ≡ body a → ⊥
    none_of none h = ground (arith, h)
    none_of (some p) h = ground (arith, h)

module _ (parse_uuid : String → Option String) {D : Type 0} (env : Environment D) where
  mapped-Known :
      (acks : List ResultAcknowledgement) (mapped : List ProbeResultAcknowledgement)
      (answer : Result (List ProbeResultAcknowledgement))
      → All (Parses parse_uuid) (acknowledged acks)
      → to_acknowledgements parse_uuid acks ≡ answer
      → body_or answer ≡ body mapped
      → All (Known mapped) (acknowledged acks)
  mapped-Known acks mapped (err x) h same e = absurd (ground (arith, e))
  mapped-Known acks mapped (ok m) h same e =
      Known-mapped parse_uuid acks mapped h (same ∙ ap ok (body_injective e))

  answered-Known :
      (acks : Result (List ResultAcknowledgement)) (mapped : List ProbeResultAcknowledgement)
      (ids : List String)
      → All (Parses parse_uuid) ids
      → ((a : List ResultAcknowledgement) → acks ≡ ok a → acknowledged a ≡ ids)
      → answered parse_uuid acks ≡ body mapped
      → All (Known mapped) ids
  unfolding answered
  answered-Known (err x) mapped ids h k e = absurd (from_error-not-body x mapped e)
  answered-Known (ok acks) mapped ids h k e =
      subst (All (Known mapped)) (k acks refl)
        (mapped-Known acks mapped _ (subst (All (Parses parse_uuid)) (sym (k acks refl)) h) refl e)

  -- The answer to the batch of an agent acknowledges all of it: if the control plane answers a batch with
  -- acknowledgements, and the identifiers in it are texts of UUIDs, then `unacknowledgedResults` of the
  -- worker finds none to send again.
  pub upload_probe_results-clears :
      (lease_duration : Duration) (principal : Principal) (results : List ProbeResultInput)
      (acks : List ProbeResultAcknowledgement) (w : World D)
      → All (Parses parse_uuid) (result_ids results)
      → (upload_probe_results parse_uuid env lease_duration (some principal) (some results) w).0
        ≡ body acks
      → unacknowledged_results results acks ≡ []
  unfolding upload_probe_results uploaded
  upload_probe_results-clears lease_duration principal results acks w h e =
      none_unacknowledged results acks (of_kind principal.kind e)
    where
      of_kind :
          (kind : PrincipalKind)
          → (as_agent parse_uuid env kind
              (uploaded parse_uuid env lease_duration principal.subject_id (some results) w)
              w).0
            ≡ body acks
          → All (Known acks) (result_ids results)
      of_kind principal_admin e = absurd (from_error-not-body invalid_credentials acks e)
      of_kind principal_agent e =
          answered-Known
            (upload_batch env lease_duration principal.subject_id (to_commands results) w).0 acks
            (result_ids results) h
            (λ a same.
              (upload_batch-acknowledged env lease_duration principal.subject_id
                (to_commands results) a w same).2
              ∙ sent-to_commands results)
            e
