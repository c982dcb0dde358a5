-- ===== src/Application/Agents.antt =====
-- internal/application/agents.go: agents enrol, are authenticated and send heartbeats.
pub mod Refused
use xisnove.Prelude.{
  ℕ, ◌*◌, String, Bool, true, false, not, ◌&&◌, ◌||◌, List, [], ◌∷◌, Option, none, some, ◌==◌,
  if◌then◌else◌,
}
use xisnove.Prelude.Int.{pos, ◌+ℤ◌, ltb_ℤ, eqb_ℤ}
use xisnove.Prelude.Text.{is_empty, trim_space}
use xisnove.Result.{
  Result, ok, err, validation, invalid_credentials, invalid_enrollment_token, is_not_found,
}
use xisnove.Action.{
  Action, pure, raise, lift, run_query, ask, ask_or_fail, attempt, ensure, ◌>>=◌, ◌>>◌,
}
use xisnove.Domain.Health.{Time}
use xisnove.Domain.Agent.{Agent, AgentCapability, is_err, new_agent, validate_agent_capabilities}
use xisnove.Domain.Monitor.{Duration}
use xisnove.Application.Records.{EnrollmentTokenRecord, AgentRecord}
use xisnove.Application.Store.{within_tx}
use xisnove.Application.Environment.{
  IssuedToken, PrincipalKind, principal_admin, principal_agent, Principal, Environment,
}
use xisnove.Application.Results.{seconds}
use xisnove.Application.Configuration.{or_invalid}

pub record EnrollmentCredential : Type 0 where
  pub token : String
  pub expires_at : Time

pub record EnrollAgentCommand : Type 0 where
  pub token : String
  pub name : String
  pub capabilities : List AgentCapability

pub record EnrolledAgentCredential : Type 0 where
  pub agent : Agent
  pub credential : String

abbrev pub minutes : ℕ → Duration
minutes n = seconds (60 * n)

unfoldable pub enrollment_ttl : Duration → Duration
enrollment_ttl ttl =
    if eqb_ℤ ttl (pos 0)
    then minutes 15
    else if ltb_ℤ ttl (minutes 1)
    then minutes 1
    else if ltb_ℤ (minutes 60) ttl
    then minutes 60
    else ttl

abbrev is_agent : PrincipalKind → Bool
is_agent principal_agent = true
is_agent principal_admin = false

module _ {D : Type 0} (env : Environment D) where
  open env.store.repositories use {locations, agents}

  unfoldable pub create_enrollment_token : String → Duration → Action D EnrollmentCredential
  create_enrollment_token location_id ttl = do
    run_query (locations.get location_id)
    token ← ask_or_fail env.new_token
    now ← ask env.now
    id ← ask env.new_id
    let expires_at = now +ℤ enrollment_ttl ttl
    run_query (
        agents.create_enrollment_token (record {
          id = id;
          location_id = location_id;
          token_hash = token.hash;
          expires_at = expires_at;
          consumed_at = none;
          created_at = now;
        }))
    pure (record { token = token.raw; expires_at = expires_at })

  pub consumed : Option EnrollmentTokenRecord → Action D EnrollmentTokenRecord
  consumed none = raise invalid_enrollment_token
  consumed (some token) = pure token

  -- The transaction of `Enroll`.
  unfoldable pub enroll_in : EnrollAgentCommand → IssuedToken → Time → Action D Agent
  unfolding consumed
  enroll_in command credential now = do
    found ← run_query (agents.consume_enrollment_token (env.hash_token command.token) now now)
    enrollment ← consumed found
    id ← ask env.new_id
    enrolled ← lift (
        or_invalid "agent" "contains invalid configuration" (
          new_agent (record {
            id = id;
            location_id = enrollment.location_id;
            name = command.name;
            capabilities = command.capabilities;
            credential_generation = 1;
            created_at = now;
          })))
    run_query (agents.create (record { agent = enrolled; credential_hash = credential.hash }))
    pure enrolled

  unfoldable pub enroll : EnrollAgentCommand → Action D EnrolledAgentCredential
  enroll command = do
    ensure (not (is_empty command.token)) invalid_enrollment_token
    credential ← ask_or_fail env.new_token
    now ← ask env.now
    enrolled ← within_tx env.store (enroll_in command credential now)
    pure (record { agent = enrolled; credential = credential.raw })

  authenticated : Result AgentRecord → Action D Principal
  authenticated (ok found) = pure (record { kind = principal_agent; subject_id = found.agent.id })
  authenticated (err e) = raise (if is_not_found e then invalid_credentials else e)

  unfoldable pub authenticate : String → Action D Principal
  unfolding authenticated
  authenticate raw_credential = do
    ensure (not (is_empty raw_credential)) invalid_credentials
    outcome ←
        attempt (run_query (agents.find_active_by_credential_hash (env.hash_token raw_credential)))
    authenticated outcome

  unfoldable pub heartbeat : Principal → ℕ → String → List AgentCapability → Action D (Unit {0})
  heartbeat principal credential_generation version capabilities = do
    ensure
        (is_agent principal.kind
          && not (is_empty principal.subject_id)
          && not (credential_generation == 0))
        invalid_credentials
    let trimmed = trim_space version
    ensure (not (is_empty trimmed || is_err (validate_agent_capabilities capabilities)))
        (validation (("heartbeat", "contains invalid agent metadata") ∷ []))
    now ← ask env.now
    updated ← run_query (
        agents.update_heartbeat principal.subject_id credential_generation trimmed capabilities now)
    ensure updated invalid_credentials
