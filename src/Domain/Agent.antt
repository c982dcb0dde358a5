-- ===== src/Domain/Agent.antt =====
-- internal/domain/agent.go and location.go: what an Agent and a Location are made of.
pub mod Capabilities
use text.Mathlib.Text.{◌==◌ as str_eq}
use xisnove.Prelude.{
  ℕ, String, Bool, true, false, not, ◌||◌, List, [], ◌∷◌, Option, none, any, ◌==◌, if◌then◌else◌,
}
use xisnove.Prelude.Text.{is_empty, trim_space}
use xisnove.Result.{Result, ok, err, invalid_agent, invalid_location}
use xisnove.Domain.Health.{Time, zero_time}

-- A string type, as `HealthState` is.
pub data AgentCapability : Type 0 where
  http tcp dns : AgentCapability
  other : String → AgentCapability

abbrev pub capability_eq : AgentCapability → AgentCapability → Bool
capability_eq http http = true
capability_eq tcp tcp = true
capability_eq dns dns = true
capability_eq (other a) (other b) = str_eq a b
capability_eq _ _ = false

abbrev pub is_known : AgentCapability → Bool
is_known (other s) = false
is_known _ = true

pub record Agent : Type 0 where
  pub id : String
  pub location_id : String
  pub name : String
  pub capabilities : List AgentCapability
  pub credential_generation : ℕ
  pub version : String
  pub last_seen_at : Time
  pub revoked_at : Option Time
  pub created_at : Time

pub record NewAgentParams : Type 0 where
  pub id : String
  pub location_id : String
  pub name : String
  pub capabilities : List AgentCapability
  pub credential_generation : ℕ
  pub created_at : Time

-- The loop of `ValidateAgentCapabilities`; `seen` holds the keys of the map.
validate_from : List AgentCapability → List AgentCapability → Result (Unit {0})
validate_from seen [] = ok tt
validate_from seen (c ∷ rest) =
    let next = validate_from (c ∷ seen) rest in
    if not (is_known c)
    then err invalid_agent
    else if any (λ k. capability_eq k c) seen
    then err invalid_agent
    else next

unfoldable pub validate_agent_capabilities : List AgentCapability → Result (Unit {0})
unfolding validate_from
validate_agent_capabilities [] = err invalid_agent
validate_agent_capabilities (c ∷ rest) = validate_from [] (c ∷ rest)

abbrev pub is_err {ℓ} : {A : Type ℓ} → Result A → Bool
is_err (ok a) = false
is_err (err e) = true

unfoldable pub new_agent : NewAgentParams → Result Agent
new_agent params =
    let name = trim_space params.name in
    if is_empty params.id
      || is_empty params.location_id
      || is_empty name
      || params.credential_generation == 0
      || is_err (validate_agent_capabilities params.capabilities)
    then err invalid_agent
    else ok (record {
      id = params.id;
      location_id = params.location_id;
      name = name;
      capabilities = params.capabilities;
      credential_generation = params.credential_generation;
      version = "";
      last_seen_at = zero_time;
      revoked_at = none;
      created_at = params.created_at;
    })

pub record Location : Type 0 where
  pub id : String
  pub name : String
  pub created_at : Time

unfoldable pub new_location : String → String → Time → Result Location
new_location id name created_at =
    let trimmed = trim_space name in
    if is_empty id || is_empty trimmed
    then err invalid_location
    else ok (record { id = id; name = trimmed; created_at = created_at })
