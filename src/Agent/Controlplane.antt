-- ===== src/Agent/Controlplane.antt =====
-- agent/internal/controlplane: the requests and responses of the control plane as its client sees them.
-- A UUID is its text; an int64 pointer is an optional integer.
use xisnove.Prelude.{ℕ, String, Bool, List, Option}
use xisnove.Prelude.Int.{ℤ}
use xisnove.Domain.Agent.{AgentCapability}
use xisnove.Domain.Health.{Time}

pub record StatusRange : Type 0 where
  pub minimum : ℤ
  pub maximum : ℤ

pub record HttpProbeDefinition : Type 0 where
  pub method : String
  pub url : String
  pub headers : List (String × String)
  pub body : List ℕ
  pub expected_status : List StatusRange
  pub body_contains : List String
  pub body_does_not_contain : List String
  pub follow_redirects : Bool
  pub tls_minimum_remaining_seconds : Option ℤ

pub record TcpProbeDefinition : Type 0 where
  pub host : String
  pub port : ℤ
  pub send : List ℕ
  pub expect : List ℕ
  pub tls_minimum_remaining_seconds : Option ℤ

pub record DnsProbeDefinition : Type 0 where
  pub resolver : String
  pub name : String
  pub record_type : String
  pub expected_values : List String

-- A text in JSON, by what the methods of the type read from it: `none` where they return an error.
pub record ProbeDefinition : Type 0 where
  pub discriminator : Option String
  pub as_http : Option HttpProbeDefinition
  pub as_tcp : Option TcpProbeDefinition
  pub as_dns : Option DnsProbeDefinition

pub record ProbeWork : Type 0 where
  pub run_id : String
  pub monitor_id : String
  pub lease_token : String
  pub scheduled_for : Time
  pub timeout_millis : ℤ
  pub probe : ProbeDefinition

pub record ProtocolTimings : Type 0 where
  pub dns_millis : Option ℤ
  pub connect_millis : Option ℤ
  pub tls_millis : Option ℤ
  pub first_byte_millis : Option ℤ

-- The outcomes and error codes that the agent gives.
pub data ProbeResultInputOutcome : Type 0 where
  passed failed : ProbeResultInputOutcome

pub data ProbeResultInputErrorCode : Type 0 where
  empty body_mismatch connect_error dns_error dns_mismatch : ProbeResultInputErrorCode
  protocol_error response_too_large status_mismatch target_denied : ProbeResultInputErrorCode
  tcp_expect_mismatch timeout tls_error tls_expiring : ProbeResultInputErrorCode

pub record ProbeResultInput : Type 0 where
  pub result_id : String
  pub run_id : String
  pub lease_token : String
  pub started_at : Time
  pub finished_at : Time
  pub outcome : ProbeResultInputOutcome
  pub error_code : ProbeResultInputErrorCode
  pub latency_millis : ℤ
  pub observed_status : ℤ
  pub body_assertion_passed : Bool
  pub diagnostic_sample : String
  pub observed_values : Option (List String)
  pub protocol_timings : Option ProtocolTimings
  pub tls_not_after : Option Time

pub data ProbeResultAcknowledgementStatus : Type 0 where
  accepted duplicate : ProbeResultAcknowledgementStatus
  other : String → ProbeResultAcknowledgementStatus

pub record ProbeResultAcknowledgement : Type 0 where
  pub result_id : String
  pub status : ProbeResultAcknowledgementStatus

pub record AgentHeartbeat : Type 0 where
  pub version : String
  pub credential_generation : ℤ
  pub capabilities : List AgentCapability

pub record LeaseWorkRequest : Type 0 where
  pub wait_seconds : ℤ
  pub capabilities : List AgentCapability
