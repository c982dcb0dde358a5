-- ===== src/Application/Leasing.antt =====
-- internal/application/leasing.go: an agent leases the next run that it can probe.
pub mod Polling
use xisnove.Prelude.{
  suc, String, Bool, true, false, not, ◌&&◌, ◌||◌, List, [], ◌∷◌, Option, none, some, any,
  if◌then◌else◌,
}
use xisnove.Prelude.Int.{pos, ◌+ℤ◌, ◌-ℤ◌, ltb_ℤ, leb_ℤ, eqb_ℤ, saturate}
use xisnove.Result.{
  Result, ok, err, invalid_credentials, no_work, canceled, is_not_found, is_no_work,
}
use xisnove.Action.{World, Action, pure, raise, run_query, ask_or_fail, attempt, ensure, ◌>>=◌}
use xisnove.Domain.Health.{Time}
use xisnove.Domain.Agent.{AgentCapability, capability_eq}
use xisnove.Domain.Monitor.{Duration, ProbeDefinition}
use xisnove.Application.Records.{AgentRecord, RunRecord}
use xisnove.Application.Environment.{IssuedToken, Environment}
use xisnove.Application.Results.{seconds}

pub record ProbeWork : Type 0 where
  pub run_id : String
  pub monitor_id : String
  pub scheduled_for : Time
  pub lease_token : String
  pub timeout : Duration
  pub probe : ProbeDefinition

pub record LeaseService : Type 0 where
  pub lease_duration : Duration
  pub poll_interval : Duration

-- NewLeaseService: a poll interval that is not positive is 250 milliseconds.
unfoldable pub new_lease_service : Duration → Duration → LeaseService
new_lease_service lease_duration poll_interval = record {
  lease_duration = lease_duration;
  poll_interval = if leb_ℤ poll_interval (pos 0) then pos 250_000_000 else poll_interval;
}

unfoldable pub capabilities_subset : List AgentCapability → List AgentCapability → Bool
capabilities_subset [] advertised = true
capabilities_subset (c ∷ rest) advertised =
    let others = capabilities_subset rest advertised in
    if any (λ a. capability_eq c a) advertised then others else false

abbrev is_nil {ℓ} : {A : Type ℓ} → List A → Bool
is_nil [] = true
is_nil (x ∷ xs) = false

abbrev is_none {ℓ} : {A : Type ℓ} → Option A → Bool
is_none none = true
is_none (some a) = false

-- The wait of a request, between 0 and 30 seconds.
unfoldable pub clamp_wait : Duration → Duration
clamp_wait wait =
    let above = if ltb_ℤ wait (pos 0) then pos 0 else wait in
    if ltb_ℤ (seconds 30) above then seconds 30 else above

unfoldable pub probe_work : IssuedToken → RunRecord → ProbeWork
probe_work token run = record {
  run_id = run.id;
  monitor_id = run.monitor_id;
  scheduled_for = run.scheduled_for;
  lease_token = token.raw;
  timeout = run.timeout;
  probe = run.probe;
}

module _ {D : Type 0} (env : Environment D) (service : LeaseService) where
  open env.store.repositories use {runs, agents}

  claimed : IssuedToken → Result RunRecord → Action D ProbeWork
  claimed token (ok run) = pure (probe_work token run)
  claimed token (err e) = raise (if is_not_found e then no_work else e)

  unfoldable pub try_lease_probe : String → List AgentCapability → Action D ProbeWork
  unfolding claimed
  try_lease_probe agent_id capabilities = do
    now ← run_query runs.database_now
    token ← ask_or_fail env.new_token
    outcome ← attempt (
        run_query (
          runs.claim_probe (record {
            agent_id = agent_id;
            capabilities = capabilities;
            lease_token_hash = token.hash;
            lease_expires_at = now +ℤ service.lease_duration;
            now = now;
          })))
    claimed token outcome

  loaded : Result AgentRecord → Action D AgentRecord
  loaded (ok agent) = pure agent
  loaded (err e) = raise (if is_not_found e then invalid_credentials else e)

  -- The tests of `LeaseProbe` before its loop.
  unfoldable pub admit_lease : String → List AgentCapability → Action D (Unit {0})
  unfolding loaded
  admit_lease agent_id capabilities = do
    outcome ← attempt (run_query (agents.get agent_id))
    record_of ← loaded outcome
    ensure
        (is_none record_of.agent.revoked_at
          && not (is_nil capabilities)
          && capabilities_subset capabilities record_of.agent.capabilities)
        invalid_credentials

-- One wait of the polling loop: it ends with the timer, or because the context is done.
pub data Wake : Type 0 where
  fired context_done : Wake

module _ {D : Type 0} (env : Environment D) (service : LeaseService) where
  -- What follows a try; `next` is what the wait leads to. `time.Until` reads the clock.
  after_try :
      Duration
      → Time
      → (World D → Option (Result ProbeWork) × World D)
      → Result ProbeWork
      → World D
      → Option (Result ProbeWork) × World D
  after_try wait deadline next (ok work) w = (some (ok work), w)
  after_try wait deadline next (err e) w =
      let remaining = saturate (deadline -ℤ env.now w.asked) in
      let waiting = next (record w { asked = suc w.asked }) in
      if not (is_no_work e)
      then (some (err e), w)
      else if eqb_ℤ wait (pos 0) || leb_ℤ remaining (pos 0)
      then (some (err no_work), record w { asked = suc w.asked })
      else waiting

  -- The polling loop, over the waits that are to come. While a call waits, others change the
  -- database: `meanwhile` is what they do. Where the list of waits ends the call still waits, which
  -- is `none`.
  unfoldable pub poll :
      (World D → World D)
      → String
      → List AgentCapability
      → Duration
      → Time
      → List Wake
      → World D
      → Option (Result ProbeWork) × World D
  unfolding after_try
  poll meanwhile agent_id capabilities wait deadline [] w =
      let (outcome, w') = try_lease_probe env service agent_id capabilities w in
      after_try wait deadline (λ v. (none, v)) outcome w'
  poll meanwhile agent_id capabilities wait deadline (context_done ∷ rest) w =
      let (outcome, w') = try_lease_probe env service agent_id capabilities w in
      after_try wait deadline (λ v. (some (err canceled), v)) outcome w'
  poll meanwhile agent_id capabilities wait deadline (fired ∷ rest) w =
      let (outcome, w') = try_lease_probe env service agent_id capabilities w in
      after_try wait deadline
        (λ v. poll meanwhile agent_id capabilities wait deadline rest (meanwhile v)) outcome w'

  start_poll :
      (World D → World D)
      → String
      → List AgentCapability
      → Duration
      → List Wake
      → Result (Unit {0}) × World D
      → Option (Result ProbeWork) × World D
  start_poll meanwhile agent_id capabilities wait wakes (err e, w) = (some (err e), w)
  start_poll meanwhile agent_id capabilities wait wakes (ok _, w) =
      poll meanwhile agent_id capabilities wait (env.now w.asked +ℤ wait) wakes
        (record w { asked = suc w.asked })

  -- LeaseProbe
  unfoldable pub lease_probe :
      (World D → World D)
      → String
      → List AgentCapability
      → Duration
      → List Wake
      → World D
      → Option (Result ProbeWork) × World D
  unfolding start_poll
  lease_probe meanwhile agent_id capabilities wait wakes w =
      start_poll meanwhile agent_id capabilities (clamp_wait wait) wakes
        (admit_lease env service agent_id capabilities w)
