-- ===== src/HttpApi/Accepted.antt =====
-- What the agent uploads through internal/adapters/httpapi/results.go, and what it is answered.
use xisnove.Prelude.{◌≡◌, String, false, some}
use xisnove.Prelude.Int.{◌+ℤ◌, ◌-ℤ◌, ◌≤ℤ◌}
use xisnove.Prelude.Text.{is_empty}
use xisnove.Domain.Health.{Time}
use xisnove.Application.Records.{RunRecord, leased}
use xisnove.Application.Results as application
use xisnove.Application.Results.{seconds, upload_batch, ResultAcknowledgement}
use xisnove.Agent.Controlplane.{ProbeResultInput}
use xisnove.Agent.Probe.Policy.{Policy}
use xisnove.Agent.Probe.Steps as steps
use xisnove.Agent.Probe.Steps.Fits.{Fits}

-- The run is leased by the agent, and the result is in time for the lease.
pub record IsInTime (r : ProbeResultInput) (run : RunRecord) (agent_id : String) (at : Time)
    : Type 0 where
  pub expires : Time
  pub named : is_empty r.result_id ≡ false
  pub held : run.status ≡ leased
  pub holder : run.lease_agent_id ≡ agent_id
  pub expiry : run.lease_expires_at ≡ some expires
  pub in_time : at ≤ℤ expires +ℤ seconds 30
  pub begun : run.scheduled_for -ℤ seconds 30 ≤ℤ r.started_at
  pub ordered : r.started_at ≤ℤ r.finished_at
  pub ended : r.finished_at ≤ℤ expires +ℤ seconds 30
