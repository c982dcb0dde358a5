-- ===== src/Application/Environment.antt =====
-- What the services of internal/application are configured with: a store, and the clock, identifiers
-- and tokens of their environment, each a function of the number of calls made so far.
use xisnove.Prelude.{ℕ, String, List}
use xisnove.Result.{Result}
use xisnove.Domain.Health.{Time}
use xisnove.Application.Store.{Store}

-- auth.go
pub record IssuedToken : Type 0 where
  pub raw : String
  pub hash : List ℕ

pub data PrincipalKind : Type 0 where
  principal_admin principal_agent : PrincipalKind

pub record Principal : Type 0 where
  pub kind : PrincipalKind
  pub subject_id : String

pub record Environment (D : Type 0) : Type 0 where
  pub store : Store D
  -- `now()`
  pub now : ℕ → Time
  -- `newID()`
  pub new_id : ℕ → String
  -- `TokenIssuer`: New() and Hash(raw)
  pub new_token : ℕ → Result IssuedToken
  pub hash_token : String → List ℕ
