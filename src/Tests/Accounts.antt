-- ===== src/Tests/Accounts.antt =====
-- The theorems on enrolment and on the first administrator at concrete inputs.
use xisnove.Prelude.{◌≡◌, refl, [], ◌∷◌, none, arith, length}
use xisnove.Prelude.Int.{pos}
use xisnove.Prelude.Text.{trim_space}
use xisnove.Result.{Error, ok, err, invalid_enrollment_token}
use xisnove.Action.{World}
use xisnove.Domain.Health.{zero_time}
use xisnove.Domain.Agent.{Agent, AgentCapability, new_agent, validate_agent_capabilities}
use xisnove.Application.Environment.{IssuedToken}
use xisnove.Application.Configuration.{or_invalid}
use xisnove.Application.Agents.{enroll_in}
use xisnove.Application.Auth.{bootstrap_admin}
use xisnove.Sqlite.Tables.{Db, find, update_where}
use xisnove.Sqlite.Accounts.{consume_enrollment_token, consume_row, create_agent}
use xisnove.Services.{on_sqlite}
use xisnove.Services.Admins.{bootstrap_admin-IsFirst}
use xisnove.Services.Enrolment.{enroll_in-once}
use xisnove.Tests.Services.{backend, env, ready, mail, passwords, enrolment}

bootstrap_admin-IsFirst_example :
    let after =
      bootstrap_admin
        (on_sqlite backend env)
        mail
        passwords
        "a@b.org"
        "correct horse battery"
        (record { db = ready; asked = 0 }) in
    (after.0 ≡ ok tt → (length ready.admins ≡ 0) × (length after.1.db.admins ≡ 1))
    × ((e : Error) → after.0 ≡ err e → after.1.db ≡ ready)
bootstrap_admin-IsFirst_example =
    bootstrap_admin-IsFirst backend env mail passwords "a@b.org" "correct horse battery"
      (record { db = ready; asked = 0 })

abbrev with_token : Db
with_token = record ready {
  agents = [];
  enrollment_tokens =
      record {
        id = "k";
        location_id = "l";
        token_hash = 7 ∷ [];
        expires_at = pos 900;
        consumed_at = none;
        created_at = pos 1;
      }
      ∷ [];
}

abbrev credential : IssuedToken
credential = record { raw = "c"; hash = 9 ∷ [] }

abbrev enrolled : Agent
enrolled = record {
  id = "i";
  location_id = "l";
  name = "probe";
  capabilities = AgentCapability.http ∷ [];
  credential_generation = 1;
  version = "";
  last_seen_at = zero_time;
  revoked_at = none;
  created_at = pos 60;
}

abbrev start : World Db
start = record { db = with_token; asked = 0 }

enrols : (enroll_in (on_sqlite backend env) enrolment credential (pos 60) start).0 ≡ ok enrolled
unfolding enroll_in consume_enrollment_token consume_row find update_where or_invalid new_agent
    validate_agent_capabilities trim_space create_agent
enrols = refl

enroll_in-once_example :
    (enroll_in
      (on_sqlite backend env)
      enrolment
      credential
      (pos 70)
      (enroll_in (on_sqlite backend env) enrolment credential (pos 60) start).1).0
    ≡ err invalid_enrollment_token
enroll_in-once_example =
    enroll_in-once backend env enrolment (pos 60) (pos 70) refl (omega arith) enrolment credential
      credential enrolled start
      (enroll_in (on_sqlite backend env) enrolment credential (pos 60) start).1 enrols refl refl
