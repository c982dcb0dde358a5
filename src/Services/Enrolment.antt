-- ===== src/Services/Enrolment.antt =====
-- `Enroll` of internal/application/agents.go over the store, with a token that was used before.
use xisnove.Prelude.{◌≡◌, ap, false, Option}
use xisnove.Prelude.Int.{◌≤ℤ◌, eqb_ℤ}
use xisnove.Result.{Result, ok, err, invalid_enrollment_token}
use xisnove.Action.{World, Query, run_query, ask, lift}
use xisnove.Action.Keeps.{Keeps-bind, Keeps-ask, Keeps-lift, Keeps-pure, Keeps-run_query}
use xisnove.Action.Ensures.{Ensures, Ensures-run_query, Ensures-then}
use xisnove.Domain.Health.{Time, zero_time}
use xisnove.Domain.Agent.{Agent, new_agent}
use xisnove.Application.Records.{EnrollmentTokenRecord}
use xisnove.Application.Environment.{IssuedToken, Environment}
use xisnove.Application.Configuration.{or_invalid}
use xisnove.Application.Agents.{EnrollAgentCommand, consumed, enroll_in}
use xisnove.Application.Agents.Refused.{enroll_in-refused, consumed-Keeps}
use xisnove.Sqlite.Tables.{Db}
use xisnove.Sqlite.Accounts.{consume_enrollment_token, create_agent}
use xisnove.Sqlite.Accounts.Tokens.{
  has_usable, consume_enrollment_token-used, consume_enrollment_token-unusable,
  create_agent-spares_tokens,
}
use xisnove.Services.{Backend, on_sqlite}

module _ (b : Backend) (env : Environment Db) where
  abbrev here : Environment Db
  here = on_sqlite b env

  module _ (command : EnrollAgentCommand) (now later : Time) (nonzero : eqb_ℤ now zero_time ≡ false)
      (in_order : b.engine.julianday now ≤ℤ b.engine.julianday later) where
    abbrev IsUsed : Db → Type 0
    IsUsed db =
        has_usable b.engine (env.hash_token command.token) later db.enrollment_tokens ≡ false

    enroll_in-IsUsed :
        (credential : IssuedToken) → Ensures (λ _. IsUsed) (enroll_in here command credential now)
    unfolding enroll_in
    enroll_in-IsUsed credential =
        let hash = env.hash_token command.token in
        let consume : Query Db (Option EnrollmentTokenRecord) =
          consume_enrollment_token b.engine hash now now in
        Ensures-then (run_query consume) _
          (Ensures-run_query consume
            (λ d t e. consume_enrollment_token-used b.engine hash now later d nonzero in_order))
          λ found. Keeps-bind (consumed here found) _ (consumed-Keeps here found) λ enrollment.
            Keeps-bind (ask env.new_id) _ (Keeps-ask env.new_id) λ id.
              let made : Result Agent = or_invalid "agent" "contains invalid configuration" (
                new_agent (record {
                  id = id;
                  location_id = enrollment.location_id;
                  name = command.name;
                  capabilities = command.capabilities;
                  credential_generation = 1;
                  created_at = now;
                })) in
              Keeps-bind (lift made) _ (Keeps-lift made) λ agent.
                let create : Query Db (Unit {0}) =
                  create_agent (record { agent = agent; credential_hash = credential.hash }) in
                Keeps-bind (run_query create) _
                  (Keeps-run_query create (λ d h.
                    rw
                      (create_agent-spares_tokens
                        (record { agent = agent; credential_hash = credential.hash }) d)
                      h))
                  λ u. Keeps-pure agent

    -- An enrolment token is used once. Suppose that an enrolment with it succeeded, at a time that is not
    -- the zero time. Then an enrolment with the same token, at a time that the database does not hold to
    -- be earlier, is refused as invalid, whatever else has changed, if the table of tokens has not.
    pub enroll_in-once :
        (other : EnrollAgentCommand) (credential new_credential : IssuedToken) (agent : Agent)
        (w v : World Db)
        → (enroll_in here command credential now w).0 ≡ ok agent
        → other.token ≡ command.token
        → v.db.enrollment_tokens ≡ (enroll_in here command credential now w).1.db.enrollment_tokens
        → (enroll_in here other new_credential later v).0 ≡ err invalid_enrollment_token
    enroll_in-once other credential new_credential agent w v e same kept =
        let hash = env.hash_token command.token in
        let unusable : has_usable b.engine hash later v.db.enrollment_tokens ≡ false =
          rw kept ((enroll_in-IsUsed credential).at w agent e) in
        let nothing = consume_enrollment_token-unusable b.engine hash later v.db unusable in
        let consume : Query Db (Option EnrollmentTokenRecord) =
          consume_enrollment_token b.engine hash later later in
        enroll_in-refused here other new_credential later v (consume v.db).1
          (rw same (ap (λ r. (r, (consume v.db).1)) nothing))
