-- ===== src/Application/Agents/Refused.antt =====
-- The transaction of `Enroll` of internal/application/agents.go when the token is not there to consume.
use xisnove.Prelude.{◌≡◌, refl, Option, none, some}
use xisnove.Result.{ok, err, invalid_enrollment_token}
use xisnove.Action.{World}
use xisnove.Action.Keeps.{Keeps, Keeps-raise, Keeps-pure}
use xisnove.Domain.Health.{Time}
use xisnove.Application.Records.{EnrollmentTokenRecord}
use xisnove.Application.Environment.{IssuedToken, Environment}
use xisnove.Application.Agents.{EnrollAgentCommand, consumed, enroll_in}

module _ {D : Type 0} (env : Environment D) where
  open env.store.repositories use {agents}

  pub enroll_in-refused :
      (command : EnrollAgentCommand) (credential : IssuedToken) (now : Time) (w : World D) (d : D)
      → agents.consume_enrollment_token (env.hash_token command.token) now now w.db ≡ (ok none, d)
      → (enroll_in env command credential now w).0 ≡ err invalid_enrollment_token
  unfolding enroll_in consumed
  enroll_in-refused command credential now w d h = rw h refl

  pub consumed-Keeps :
      {P : D → Type 0} (found : Option EnrollmentTokenRecord) → Keeps P (consumed env found)
  unfolding consumed
  consumed-Keeps none = Keeps-raise invalid_enrollment_token
  consumed-Keeps (some t) = Keeps-pure t
