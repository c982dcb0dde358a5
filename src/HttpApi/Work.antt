-- ===== src/HttpApi/Work.antt =====
-- internal/adapters/httpapi/work.go.
pub mod Sent
use text.Mathlib.Text.{◌==◌ as str_eq}
use xisnove.Prelude.{
  String, Bool, true, false, not, ◌||◌, List, [], ◌∷◌, Option, none, some, any, if◌then◌else◌,
}
use xisnove.Prelude.Int.{ℤ, pos, i32, quot}
use xisnove.Result.{Result, ok, err, and_then, other, is_no_work}
use xisnove.Action.{World}
use xisnove.Domain.Agent.{AgentCapability, http, tcp, dns, other as other_capability, capability_eq}
use xisnove.Application.Leasing as application
use xisnove.Application.Leasing.{LeaseService, Wake, lease_probe}
use xisnove.Application.Environment.{
  Environment, Principal, PrincipalKind, principal_agent, principal_admin,
}
use xisnove.Agent.Controlplane.{ProbeWork, LeaseWorkRequest}
use xisnove.HttpApi.Results.{Response, body, body_or, from_error}
use xisnove.HttpApi.Requests.{from_seconds, parsed_id, invalid, unauthorized}
use xisnove.HttpApi.Probes.{Encoding}
use xisnove.HttpApi.Probes.ToApi.{probe_to_api}

-- AgentCapability.Valid
abbrev pub valid_capability : AgentCapability → Bool
valid_capability http = true
valid_capability tcp = true
valid_capability dns = true
valid_capability (other_capability s) =
    str_eq s "kubernetes-discovery" || str_eq s "kubernetes-watch"

abbrev prepend : AgentCapability → Result (List AgentCapability) → Result (List AgentCapability)
prepend c (ok rest) = ok (c ∷ rest)
prepend c (err e) = err e

-- The loop of capabilitiesFromAPI, behind the capabilities that it has seen.
unfoldable pub capabilities_after :
    List AgentCapability → List AgentCapability → Result (List AgentCapability)
capabilities_after seen [] = ok []
capabilities_after seen (c ∷ rest) =
    let later = capabilities_after (c ∷ seen) rest in
    if not (valid_capability c)
    then err (other "invalid capability")
    else if any (capability_eq c) seen
    then err (other "duplicate capability")
    else prepend c later

unfoldable pub capabilities_from_api : List AgentCapability → Result (List AgentCapability)
unfolding capabilities_after
capabilities_from_api [] = err (other "capabilities are required")
capabilities_from_api (c ∷ rest) = capabilities_after [] (c ∷ rest)

module _ (parse_uuid : String → Option String) (encoding : Encoding) where
  unfoldable pub map_probe_work : application.ProbeWork → Result ProbeWork
  map_probe_work work = and_then (parsed_id parse_uuid work.run_id) λ run_id.
      and_then (parsed_id parse_uuid work.monitor_id) λ monitor_id.
        and_then (probe_to_api encoding work.probe) λ probe. ok (record {
          run_id = run_id;
          monitor_id = monitor_id;
          lease_token = work.lease_token;
          scheduled_for = work.scheduled_for;
          timeout_millis = i32 (quot work.timeout (pos 1_000_000));
          probe = probe;
        })

  abbrev found : Result ProbeWork → Response (Option ProbeWork)
  found r = body_or (and_then r λ work. ok (some work))

  -- The body is `none` for the status 204.
  unfoldable pub work_answer : Result application.ProbeWork → Response (Option ProbeWork)
  unfolding map_probe_work
  work_answer (ok work) = found (map_probe_work work)
  work_answer (err e) = if is_no_work e then body none else from_error e

  module _ {D : Type 0} (env : Environment D) (service : LeaseService) where
    abbrev Answer : Type 0
    Answer = Option (Response (Option ProbeWork)) × World D

    abbrev done : Response (Option ProbeWork) × World D → Answer
    done (r, w) = (some r, w)

    abbrev answered : Option (Result application.ProbeWork) × World D → Answer
    answered (none, w) = (none, w)
    answered (some r, w) = (some (work_answer r), w)

    abbrev lease_with :
        (World D → World D)
        → List Wake
        → String
        → LeaseWorkRequest
        → Result (List AgentCapability)
        → World D
        → Answer
    lease_with meanwhile wakes agent_id request (err e) w =
        done (invalid "capabilities" "contains invalid values" w)
    lease_with meanwhile wakes agent_id request (ok capabilities) w = answered (
        lease_probe env service meanwhile agent_id capabilities (from_seconds request.wait_seconds)
          wakes w)

    abbrev lease_for :
        (World D → World D)
        → List Wake
        → Principal
        → Option LeaseWorkRequest
        → PrincipalKind
        → World D
        → Answer
    lease_for meanwhile wakes principal request principal_admin w = done (unauthorized w)
    lease_for meanwhile wakes principal none principal_agent w =
        done (invalid "body" "is required" w)
    lease_for meanwhile wakes principal (some request) principal_agent w =
        lease_with meanwhile wakes principal.subject_id request
          (capabilities_from_api request.capabilities) w

    -- LeaseAgentWork; `none` while the poll of `lease_probe` still waits.
    unfoldable pub lease_agent_work :
        (World D → World D)
        → List Wake
        → Option Principal
        → Option LeaseWorkRequest
        → World D
        → Answer
    lease_agent_work meanwhile wakes none request w = done (unauthorized w)
    lease_agent_work meanwhile wakes (some principal) request w =
        lease_for meanwhile wakes principal request principal.kind w
