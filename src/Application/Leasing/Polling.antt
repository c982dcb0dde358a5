-- ===== src/Application/Leasing/Polling.antt =====
-- How `LeaseProbe` of internal/application/leasing.go ends, and for whom.
use xisnove.Prelude.{
  suc, ◌≡◌, refl, Bool, true, false, List, [], ◌∷◌, Option, none, some, String, arith, any, all,
}
use xisnove.Result.{Result, ok, err, canceled}
use xisnove.Action.{World}
use xisnove.Domain.Health.{Time}
use xisnove.Domain.Agent.{AgentCapability, capability_eq}
use xisnove.Domain.Monitor.{Duration}
use xisnove.Application.Environment.{Environment}
use xisnove.Application.Leasing.{
  LeaseService, ProbeWork, Wake, fired, context_done, capabilities_subset, try_lease_probe, poll,
  after_try,
}

abbrev pub is_known_to : List AgentCapability → AgentCapability → Bool
is_known_to advertised c = any (λ a. capability_eq c a) advertised

-- A request is a subset of what an agent advertised exactly when each of its capabilities is among them.
capabilities_subset-all :
    (requested advertised : List AgentCapability)
    → capabilities_subset requested advertised ≡ all (is_known_to advertised) requested
unfolding capabilities_subset
capabilities_subset-all [] advertised = refl
capabilities_subset-all (c ∷ rest) advertised =
    ground (arith, capabilities_subset-all rest advertised)

abbrev pub has_ended {ℓ} : {A : Type ℓ} → Option A → Bool
has_ended none = false
has_ended (some a) = true

abbrev is_context_done : Wake → Bool
is_context_done context_done = true
is_context_done fired = false

module _ {D : Type 0} (env : Environment D) (service : LeaseService) (meanwhile : World D → World D)
    (agent_id : String) (capabilities : List AgentCapability) where
  after_try-ends :
      (wait : Duration) (deadline : Time) (next : World D → Option (Result ProbeWork) × World D)
      (r : Result ProbeWork) (w : World D)
      → ((v : World D) → has_ended (next v).0 ≡ true)
      → has_ended (after_try env service wait deadline next r w).0 ≡ true
  unfolding after_try
  after_try-ends wait deadline next (ok work) w h = refl
  after_try-ends wait deadline next (err e) w h =
      ground (arith, h (record w { asked = suc w.asked }))

  -- Polling for a lease ends when the context of the request is done, whatever the database, the clock
  -- and the work of others do meanwhile.
  pub poll-ends :
      (wait : Duration) (deadline : Time) (wakes : List Wake) (w : World D)
      → any is_context_done wakes ≡ true
      → has_ended (poll env service meanwhile agent_id capabilities wait deadline wakes w).0 ≡ true
  unfolding poll
  poll-ends wait deadline [] w h = ground arith
  poll-ends wait deadline (context_done ∷ rest) w h =
      after_try-ends wait deadline (λ v. (some (err canceled), v))
        (try_lease_probe env service agent_id capabilities w).0
        (try_lease_probe env service agent_id capabilities w).1 (λ v. refl)
  poll-ends wait deadline (fired ∷ rest) w h =
      after_try-ends wait deadline
        (λ v. poll env service meanwhile agent_id capabilities wait deadline rest (meanwhile v))
        (try_lease_probe env service agent_id capabilities w).0
        (try_lease_probe env service agent_id capabilities w).1
        (λ v. poll-ends wait deadline rest (meanwhile v) h)
