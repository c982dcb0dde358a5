-- ===== src/HttpApi/Accounts.antt =====
-- internal/adapters/httpapi/agents.go and auth.go. strings.EqualFold is a parameter.
use xisnove.Prelude.{String, Bool, not, ◌||◌, List, [], ◌∷◌, Option, none, some, if◌then◌else◌}
use xisnove.Prelude.Int.{ℤ, pos, pos_part, leb_ℤ, i64}
use xisnove.Prelude.Text.{is_empty}
use xisnove.Result.{Result, ok, err, and_then, invalid_enrollment_token}
use xisnove.Action.{World, Action}
use xisnove.Domain.Agent.{AgentCapability}
use xisnove.Domain.Monitor.{Duration}
use xisnove.Application.Agents as application
use xisnove.Application.Agents.{EnrollmentCredential, EnrollAgentCommand, EnrolledAgentCredential}
use xisnove.Application.Auth as auth
use xisnove.Application.Auth.{Mail, Passwords, SessionCredential}
use xisnove.Application.Environment.{Environment, Principal}
use xisnove.Agent.Controlplane.{AgentHeartbeat}
use xisnove.Agent.Probe.Dns.{fields_after}
use xisnove.HttpApi.Problems.{Problem}
use xisnove.HttpApi.Results.{Response, body, problem, body_or, from_error}
use xisnove.HttpApi.Requests.{from_seconds, parsed_id, respond, invalid, for_agent, for_admin}

pub record CreateAgentEnrollmentTokenRequest : Type 0 where
  pub location_id : String
  pub expires_in_seconds : ℤ

pub record EnrollAgentRequest : Type 0 where
  pub token : Option String
  pub name : String
  pub capabilities : List AgentCapability

pub record EnrolledAgent : Type 0 where
  pub agent_id : String
  pub credential : String
  pub credential_generation : ℤ

pub record CreateSessionRequest : Type 0 where
  pub email : String
  pub password : Option String

unfoldable pub map_enrolled :
    (String → Option String) → EnrolledAgentCredential → Result EnrolledAgent
map_enrolled parse_uuid enrolled = and_then (parsed_id parse_uuid enrolled.agent.id) λ id.
    ok (record {
      agent_id = id;
      credential = enrolled.credential;
      credential_generation = i64 (pos enrolled.agent.credential_generation);
    })

module _ {D : Type 0} (env : Environment D) where
  abbrev create_token :
      Option CreateAgentEnrollmentTokenRequest → World D → Response EnrollmentCredential × World D
  create_token none w = invalid "body" "is required" w
  create_token (some request) w = respond body (
      application.create_enrollment_token env request.location_id
        (from_seconds request.expires_in_seconds) w)

  unfoldable pub create_agent_enrollment_token :
      Option Principal
      → Option CreateAgentEnrollmentTokenRequest
      → World D
      → Response EnrollmentCredential × World D
  create_agent_enrollment_token principal request w =
      for_admin principal (λ admin. create_token request) w

  abbrev enroll_with :
      (String → Option String)
      → EnrollAgentRequest
      → Option String
      → World D
      → Response EnrolledAgent × World D
  enroll_with parse_uuid request none w = (from_error invalid_enrollment_token, w)
  enroll_with parse_uuid request (some token) w =
      respond (λ enrolled. body_or (map_enrolled parse_uuid enrolled))
        (application.enroll env
          (record { token = token; name = request.name; capabilities = request.capabilities }) w)

  unfoldable pub enroll_agent :
      (String → Option String)
      → Option EnrollAgentRequest
      → World D
      → Response EnrolledAgent × World D
  enroll_agent parse_uuid none w = (from_error invalid_enrollment_token, w)
  enroll_agent parse_uuid (some request) w = enroll_with parse_uuid request request.token w

  abbrev heartbeat_of : Option AgentHeartbeat → Principal → World D → Response (Unit {0}) × World D
  heartbeat_of none principal w = invalid "body" "contains invalid heartbeat" w
  heartbeat_of (some request) principal w =
      if leb_ℤ request.credential_generation (pos 0)
      then invalid "body" "contains invalid heartbeat" w
      else respond body (
          application.heartbeat env principal (pos_part request.credential_generation)
            request.version request.capabilities w)

  unfoldable pub heartbeat_agent :
      Option Principal → Option AgentHeartbeat → World D → Response (Unit {0}) × World D
  heartbeat_agent principal request w = for_agent principal (heartbeat_of request) w

  module _ (mail : Mail) (passwords : Passwords) (session_duration : Duration) where
    abbrev session_with : String → Option String → World D → Response SessionCredential × World D
    session_with email none w = invalid "body" "is required" w
    session_with email (some password) w =
        respond body (auth.create_session env mail passwords session_duration email password w)

    unfoldable pub create_session :
        Option CreateSessionRequest → World D → Response SessionCredential × World D
    create_session none w = invalid "body" "is required" w
    create_session (some request) w = session_with request.email request.password w

abbrev two_words : (String → String → Bool) → List String → Option String
two_words equal_fold (scheme ∷ token ∷ []) =
    if not (equal_fold scheme "Bearer") || is_empty token then none else some token
two_words equal_fold _ = none

unfoldable pub bearer_token : (String → String → Bool) → String → Option String
bearer_token equal_fold header = two_words equal_fold (fields_after "" header)

-- The problem of writeUnauthorized, with the X-Request-ID of the request.
unfoldable pub unauthorized_problem : String → Problem
unauthorized_problem request_id = record {
  type = "https://xisnove.dev/problems/unauthorized";
  title = "Authentication required";
  status = 401;
  code = "unauthorized";
  correlation_id = if is_empty request_id then "unknown" else request_id;
  detail = none;
  field_errors = none;
}

module _ {D A : Type 0} (equal_fold : String → String → Bool)
    (authenticate : String → Action D Principal) where
  abbrev admit :
      String
      → (Principal → World D → Response A × World D)
      → Result Principal × World D
      → Response A × World D
  admit request_id next (ok principal, w) = next principal w
  admit request_id next (err e, w) = (problem (unauthorized_problem request_id) 401, w)

  abbrev authorize :
      String
      → (Principal → World D → Response A × World D)
      → Option String
      → World D
      → Response A × World D
  authorize request_id next none w = (problem (unauthorized_problem request_id) 401, w)
  authorize request_id next (some token) w = admit request_id next (authenticate token w)

  -- BearerAuth; `next` handles the request with the principal in its context.
  unfoldable pub bearer_auth :
      String
      → String
      → (Principal → World D → Response A × World D)
      → World D
      → Response A × World D
  unfolding bearer_token
  bearer_auth header request_id next w =
      authorize request_id next (bearer_token equal_fold header) w
