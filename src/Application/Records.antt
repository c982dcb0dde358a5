-- ===== src/Application/Records.antt =====
-- The records of internal/application/store.go, and those that its repositories exchange.
use xisnove.Prelude.{ℕ, String, Bool, List, Option}
use xisnove.Prelude.Int.{ℤ}
use xisnove.Domain.Health.{Time}
use xisnove.Domain.Agent.{Agent, AgentCapability}
use xisnove.Domain.Monitor.{Duration, Monitor, ProbeDefinition}

pub record AdminRecord : Type 0 where
  pub id : String
  pub email : String
  pub password_hash : String
  pub created_at : Time

pub record SessionRecord : Type 0 where
  pub id : String
  pub admin_id : String
  pub token_hash : List ℕ
  pub expires_at : Time
  pub revoked_at : Option Time

pub record MonitorLocation : Type 0 where
  pub monitor_id : String
  pub location_id : String
  pub required : Bool

pub record EnrollmentTokenRecord : Type 0 where
  pub id : String
  pub location_id : String
  pub token_hash : List ℕ
  pub expires_at : Time
  pub consumed_at : Option Time
  pub created_at : Time

pub record AgentRecord : Type 0 where
  pub agent : Agent
  pub credential_hash : List ℕ

pub record DueMonitor : Type 0 where
  pub monitor : Monitor
  pub location_id : String
  pub required : Bool
  pub next_run_at : Time

pub record NewRunRecord : Type 0 where
  pub id : String
  pub monitor_id : String
  pub location_id : String
  pub scheduled_for : Time
  pub probe : ProbeDefinition
  pub timeout : Duration

pub record ClaimRunParams : Type 0 where
  pub agent_id : String
  pub capabilities : List AgentCapability
  pub lease_token_hash : List ℕ
  pub lease_expires_at : Time
  pub now : Time

-- The column `status` of check_runs admits these three values.
pub data RunStatus : Type 0 where
  available leased resolved : RunStatus

pub record RunRecord : Type 0 where
  pub id : String
  pub monitor_id : String
  pub location_id : String
  pub scheduled_for : Time
  pub probe : ProbeDefinition
  pub timeout : Duration
  pub status : RunStatus
  pub lease_agent_id : String
  pub lease_token_hash : List ℕ
  pub lease_attempt : ℕ
  pub lease_expires_at : Option Time
  pub resolved_at : Option Time

pub record ProtocolTimings : Type 0 where
  pub dns : Duration
  pub connect : Duration
  pub tls : Duration
  pub first_byte : Duration

pub record ProbeResultRecord : Type 0 where
  pub id : String
  pub run_id : String
  pub agent_id : String
  pub started_at : Time
  pub finished_at : Time
  pub received_at : Time
  pub passed : Bool
  pub latency : Duration
  pub observed_status : Option ℤ
  pub body_assertion_passed : Option Bool
  pub error_code : String
  pub diagnostic_sample : String
  pub observed_values : List String
  pub tls_not_after : Option Time
  pub protocol_timings : ProtocolTimings
