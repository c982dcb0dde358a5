-- ===== src/Domain/Agent/Capabilities.antt =====
-- What `ValidateAgentCapabilities` and `NewAgent` of internal/domain/agent.go accept.
use xisnove.Prelude.{
  ◌≤◌, ◌<◌, Bool, true, false, not, ◌&&◌, List, [], ◌∷◌, any, all, ◌≡◌, refl, arith, if◌then◌else◌,
  length,
}
use xisnove.Prelude.Text.Trimmed.{trim_space_idem}
use xisnove.Result.{ok, err, invalid_agent}
use xisnove.Domain.Agent.{
  AgentCapability, capability_eq, is_known, Agent, NewAgentParams, validate_from,
  validate_agent_capabilities, new_agent,
}

abbrev no_repeats : List AgentCapability → Bool
no_repeats [] = true
no_repeats (c ∷ rest) = not (any (λ k. capability_eq c k) rest) && no_repeats rest

-- At least one capability, all of them known, none of them twice.
abbrev pub are_capabilities : List AgentCapability → Bool
are_capabilities [] = false
are_capabilities (c ∷ rest) = all is_known (c ∷ rest) && no_repeats (c ∷ rest)

abbrev unseen : List AgentCapability → List AgentCapability → Bool
unseen seen xs = all (λ x. not (any (λ k. capability_eq k x) seen)) xs

unseen-cons :
    (c : AgentCapability) (seen xs : List AgentCapability)
    → unseen (c ∷ seen) xs ≡ (not (any (λ k. capability_eq c k) xs) && unseen seen xs)
unseen-cons c seen [] = refl
unseen-cons c seen (x ∷ xs) = ground (arith, unseen-cons c seen xs)

validate_from-eq :
    (seen xs : List AgentCapability)
    → validate_from seen xs
      ≡ (if all is_known xs && no_repeats xs && unseen seen xs then ok tt else err invalid_agent)
unfolding validate_from
validate_from-eq seen [] = refl
validate_from-eq seen (c ∷ rest) =
    ground (arith, validate_from-eq (c ∷ seen) rest, unseen-cons c seen rest)

unseen-nil : (xs : List AgentCapability) → unseen [] xs ≡ true
unseen-nil [] = refl
unseen-nil (x ∷ xs) = unseen-nil xs

-- Capabilities are accepted exactly when there is one, all are known and none is repeated.
validate_agent_capabilities-eq :
    (xs : List AgentCapability)
    → validate_agent_capabilities xs ≡ (if are_capabilities xs then ok tt else err invalid_agent)
unfolding validate_agent_capabilities
validate_agent_capabilities-eq [] = refl
validate_agent_capabilities-eq (c ∷ rest) =
    ground (arith, validate_from-eq [] (c ∷ rest), unseen-nil rest)

-- Three capabilities are known, so no more are accepted.
three_at_most : (xs : List AgentCapability) → are_capabilities xs ≡ true → length xs ≤ 3
three_at_most [] h = omega arith
three_at_most (a ∷ []) h = omega arith
three_at_most (a ∷ b ∷ []) h = omega arith
three_at_most (a ∷ b ∷ c ∷ []) h = omega arith
three_at_most (a ∷ b ∷ c ∷ d ∷ rest) h = ground arith

-- The parameters that the stored columns of an agent give back.
abbrev pub agent_params : Agent → NewAgentParams
agent_params a = record {
  id = a.id;
  location_id = a.location_id;
  name = a.name;
  capabilities = a.capabilities;
  credential_generation = a.credential_generation;
  created_at = a.created_at;
}

-- An agent that `NewAgent` made has at most three capabilities and a generation that is not 0, and
-- `NewAgent` makes the same agent again from its stored columns.
new_agent_reload :
    (params : NewAgentParams) (a : Agent)
    → new_agent params ≡ ok a
    → (length a.capabilities ≤ 3)
      × (0 < a.credential_generation)
      × (new_agent (agent_params a) ≡ ok a)
unfolding new_agent
new_agent_reload params a h = ground (
  arith,
  trim_space_idem params.name,
  validate_agent_capabilities-eq params.capabilities,
  three_at_most params.capabilities,
)
