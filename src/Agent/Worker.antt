-- ===== src/Agent/Worker.antt =====
-- agent/worker/worker.go. The channel of results is a list, oldest first, and the database of the
-- actions here. What the worker asks of the outside, its credential, the control plane, the executor,
-- new identifiers and which arm a `select` takes, answers by the number of the call. The number of the
-- HTTP status that ends some error texts is left out.
pub mod Run
pub mod Uploads
pub mod Leases
pub mod Rounds
pub mod Accounts
use text.Mathlib.Text.{◌==◌ as str_eq}
use Prim.Native.String.{◌++◌ as append}
use xisnove.Prelude.{
  ℕ, zero, suc, String, Bool, true, false, ◌&&◌, not, List, [], ◌∷◌, ◌++◌, Option, none, some, any,
  ltb, leb, ◌==◌, length, take, if◌then◌else◌,
}
use xisnove.Prelude.Int.{ℤ, pos, ◌*ℤ◌, leb_ℤ}
use xisnove.Prelude.Text.{is_empty}
use xisnove.Result.{Error, Result, ok, err, other}
use xisnove.Action.{World, Action, pure, raise, lift, run_query, ask, ask_or_fail, ◌>>=◌, ◌>>◌}
use xisnove.Domain.Agent.{AgentCapability, http}
use xisnove.Domain.Monitor.{Duration}
use xisnove.Agent.Controlplane.{
  AgentHeartbeat, LeaseWorkRequest, ProbeWork, ProbeResultInput, ProbeResultAcknowledgement,
  ProbeResultAcknowledgementStatus, accepted, duplicate,
}

abbrev pub Queue : Type 0
Queue = List ProbeResultInput

-- cap(w.results)
abbrev pub queue_cap : ℕ
queue_cap = 100

-- An answer of the control plane: an error of the transport, or a status with the body `JSON200`.
pub data Reply (A : Type 0) : Type 0 where
  unsent : Error → Reply A
  status : ℕ → Option A → Reply A

pub record Surroundings : Type 0 where
  pub credential : ℕ → Result String
  pub heartbeat : ℕ → String → AgentHeartbeat → Reply (Unit {0})
  pub lease : ℕ → String → LeaseWorkRequest → Reply ProbeWork
  pub upload : ℕ → String → List ProbeResultInput → Reply (List ProbeResultAcknowledgement)
  pub execute : ℕ → ProbeWork → ProbeResultInput
  pub new_id : ℕ → String
  -- `ctx.Done()` against the channel, and against a timer: `none` where the other arm is taken
  pub canceled : ℕ → Option Error
  pub canceled_before : ℕ → Duration → Option Error

pub record Settings : Type 0 where
  pub capabilities : List AgentCapability
  pub version : String
  pub credential_generation : ℤ

-- uuid.Nil
abbrev pub nil_id : String
nil_id = "00000000-0000-0000-0000-000000000000"

unfoldable pub enabled_capabilities : List AgentCapability → List AgentCapability
enabled_capabilities [] = http ∷ []
enabled_capabilities (c ∷ cs) = c ∷ cs

abbrev pub is_acknowledging : ProbeResultAcknowledgementStatus → Bool
is_acknowledging accepted = true
is_acknowledging duplicate = true
is_acknowledging _ = false

-- `acknowledged[id]`, where the acknowledgements are the entries of the map.
unfoldable pub is_acknowledged : List ProbeResultAcknowledgement → String → Bool
is_acknowledged acks id =
    any (λ (a : ProbeResultAcknowledgement). is_acknowledging a.status && str_eq a.result_id id)
      acks

unfoldable pub unacknowledged_results :
    List ProbeResultInput → List ProbeResultAcknowledgement → List ProbeResultInput
unfolding is_acknowledged
unacknowledged_results [] acks = []
unacknowledged_results (r ∷ rest) acks =
    let pending = unacknowledged_results rest acks in
    if is_acknowledged acks r.result_id then pending else r ∷ pending

-- The request's header Authorization.
unfoldable pub bearer : String → Result String
bearer credential =
    if is_empty credential
    then err (other "read agent credential: empty credential")
    else ok (append "Bearer " credential)

-- The answers of the three calls: an error, or what the worker goes on with.
unfoldable pub heartbeat_result : Reply (Unit {0}) → Result (Unit {0})
heartbeat_result (unsent e) = err e
heartbeat_result (status n body) = if n == 204 then ok tt else err (other "send heartbeat: HTTP")

abbrev pub work_result : Option ProbeWork → Result (Option ProbeWork)
work_result none = err (other "lease probe work: HTTP")
work_result (some work) = ok (some work)

unfoldable pub lease_result : Reply ProbeWork → Result (Option ProbeWork)
lease_result (unsent e) = err e
lease_result (status n body) =
    if n == 204
    then ok none
    else if n == 200
    then work_result body
    else err (other "lease probe work: HTTP")

-- What an upload comes to: acknowledgements, a refusal, or another try.
pub data Verdict : Type 0 where
  answered : List ProbeResultAcknowledgement → Verdict
  refused again : Verdict

abbrev pub body_verdict : Option (List ProbeResultAcknowledgement) → Verdict
body_verdict none = again
body_verdict (some acks) = answered acks

unfoldable pub upload_verdict : Reply (List ProbeResultAcknowledgement) → Verdict
upload_verdict (unsent e) = again
upload_verdict (status n body) =
    if n == 200 then body_verdict body else if leb 400 n && ltb n 500 then refused else again

abbrev pub generation_of : ℤ → ℤ
generation_of g = if leb_ℤ g (pos 0) then pos 1 else g

abbrev pub millisecond : Duration
millisecond = pos 1_000_000

abbrev pub max_backoff : Duration
max_backoff = pos 5_000_000_000

unfoldable pub next_backoff : Duration → Duration
next_backoff backoff =
    if leb_ℤ (backoff *ℤ pos 2) max_backoff then backoff *ℤ pos 2 else max_backoff

abbrev pub drop : ℕ → Queue → Queue
drop zero q = q
drop (suc n) [] = []
drop (suc n) (r ∷ rest) = drop n rest

abbrev pub Outcome : Type 0
Outcome = Option (Result (Unit {0}) × World Queue)

-- The end of a round of a loop: an error or `false` ends it, `true` goes on with the rest.
abbrev pub after_round : Result Bool → World Queue → Outcome → Outcome
after_round (err e) w rest = some (err e, w)
after_round (ok false) w rest = some (ok tt, w)
after_round (ok true) w rest = rest

abbrev pub then_ok : Outcome → (World Queue → Outcome) → Outcome
then_ok none f = none
then_ok (some (err e, w)) f = some (err e, w)
then_ok (some (ok u, w)) f = f w

unfoldable pub requeue : List ProbeResultInput → Action Queue (Unit {0})
requeue results = run_query (λ queue. (ok tt, queue ++ results))
