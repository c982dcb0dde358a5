-- ===== src/HttpApi/Requests.antt =====
-- What the handlers of internal/adapters/httpapi share: who sent a request, and what becomes of an error.
use xisnove.Prelude.{String, [], ◌∷◌, Option, none, some}
use xisnove.Prelude.Int.{ℤ, pos, ◌*ℤ◌, i64}
use xisnove.Result.{Result, ok, err, validation, invalid_credentials, other}
use xisnove.Action.{World}
use xisnove.Domain.Monitor.{Duration}
use xisnove.Application.Environment.{Principal, PrincipalKind, principal_agent, principal_admin}
use xisnove.HttpApi.Results.{Response, from_error}

-- `time.Duration(n) * time.Second`
abbrev pub from_seconds : ℤ → Duration
from_seconds n = i64 (n *ℤ pos 1_000_000_000)

-- uuid.Parse of an identifier of the database
abbrev pub parsed_id : (String → Option String) → String → Result String
parsed_id parse_uuid id = elim (parse_uuid id) [ none ↦ err (other "uuid.Parse") | some u ↦ ok u ]

module _ {D A B : Type 0} where
  -- The response to what a service returns.
  abbrev pub respond : (A → Response B) → Result A × World D → Response B × World D
  respond f (ok a, w) = (f a, w)
  respond f (err e, w) = (from_error e, w)

module _ {D A : Type 0} where
  -- A request with one field that is refused.
  abbrev pub invalid : String → String → World D → Response A × World D
  invalid field message w = (from_error (validation ((field, message) ∷ [])), w)

  abbrev pub unauthorized : World D → Response A × World D
  unauthorized w = (from_error invalid_credentials, w)

  abbrev of_agent :
      PrincipalKind → Response A × World D → Response A × World D → Response A × World D
  of_agent principal_agent done refused = done
  of_agent principal_admin done refused = refused

  abbrev of_admin :
      PrincipalKind → Response A × World D → Response A × World D → Response A × World D
  of_admin principal_admin done refused = done
  of_admin principal_agent done refused = refused

  -- The handlers for agents, and those for administrators, with the principal of the context.
  abbrev pub for_agent :
      Option Principal
      → (Principal → World D → Response A × World D)
      → World D
      → Response A × World D
  for_agent none handle w = unauthorized w
  for_agent (some principal) handle w =
      of_agent principal.kind (handle principal w) (unauthorized w)

  abbrev pub for_admin :
      Option Principal
      → (Principal → World D → Response A × World D)
      → World D
      → Response A × World D
  for_admin none handle w = unauthorized w
  for_admin (some principal) handle w =
      of_admin principal.kind (handle principal w) (unauthorized w)
