-- ===== src/Application/Store.antt =====
-- The interfaces of internal/application/store.go: the repositories over a database of type `D`, and
-- the store that opens transactions on it.
pub mod Atomic
use xisnove.Prelude.{ℕ, String, Bool, List, Option, none, some}
use xisnove.Result.{Error, Result, ok, err}
use xisnove.Action.{World, Action, Query}
use xisnove.Domain.Health.{Time, LocationHealth, MonitorHealth}
use xisnove.Domain.Incident.{Incident, IncidentEvent}
use xisnove.Domain.Agent.{Location, AgentCapability}
use xisnove.Domain.Monitor.{Monitor}
use xisnove.Application.Records.{
  AdminRecord, SessionRecord, MonitorLocation, EnrollmentTokenRecord, AgentRecord, DueMonitor,
  NewRunRecord, ClaimRunParams, RunRecord, ProbeResultRecord,
}

pub record AdminRepository (D : Type 0) : Type 0 where
  pub count : Query D ℕ
  pub create : AdminRecord → Query D (Unit {0})
  pub find_by_email : String → Query D AdminRecord

pub record SessionRepository (D : Type 0) : Type 0 where
  pub create : SessionRecord → Query D (Unit {0})
  pub find_active_by_token_hash : List ℕ → Time → Query D SessionRecord

pub record LocationRepository (D : Type 0) : Type 0 where
  pub create : Location → Query D (Unit {0})
  pub get : String → Query D Location

pub record MonitorRepository (D : Type 0) : Type 0 where
  pub create : Monitor → Query D (Unit {0})
  pub get : String → Query D Monitor
  pub assign_location : MonitorLocation → Query D (Unit {0})
  pub get_assignment : String → Query D MonitorLocation
  pub list_due : Time → ℕ → Query D (List DueMonitor)
  pub advance_next_run : String → Time → Time → Query D Bool

pub record HealthRepository (D : Type 0) : Type 0 where
  pub get_location : String → String → Query D LocationHealth
  pub upsert_location : LocationHealth → Query D (Unit {0})
  pub list_required_locations : String → Query D (List LocationHealth)
  pub list_stale : Time → ℕ → Query D (List LocationHealth)
  pub claim_stale : String → String → Time → Time → Query D Bool
  pub get_monitor : String → Query D MonitorHealth
  pub upsert_monitor : MonitorHealth → Query D (Unit {0})

-- `consume_enrollment_token` returns the record, or none for `false`.
pub record AgentRepository (D : Type 0) : Type 0 where
  pub create_enrollment_token : EnrollmentTokenRecord → Query D (Unit {0})
  pub consume_enrollment_token : List ℕ → Time → Time → Query D (Option EnrollmentTokenRecord)
  pub create : AgentRecord → Query D (Unit {0})
  pub get : String → Query D AgentRecord
  pub find_active_by_credential_hash : List ℕ → Query D AgentRecord
  pub update_heartbeat : String → ℕ → String → List AgentCapability → Time → Query D Bool

pub record RunRepository (D : Type 0) : Type 0 where
  pub database_now : Query D Time
  pub insert : NewRunRecord → Query D Bool
  pub claim_probe : ClaimRunParams → Query D RunRecord
  pub get : String → Query D RunRecord
  pub resolve : String → String → List ℕ → Time → Query D Bool

pub record ResultRepository (D : Type 0) : Type 0 where
  pub get_by_id : String → Query D ProbeResultRecord
  pub get_by_run : String → Query D ProbeResultRecord
  pub insert : ProbeResultRecord → Query D Bool

pub record IncidentRepository (D : Type 0) : Type 0 where
  pub get_active : String → Query D (Option Incident)
  pub open_new : Incident → Query D (Unit {0})
  pub update : Incident → Query D (Unit {0})
  pub append_event : IncidentEvent → Query D (Unit {0})

pub record Repositories (D : Type 0) : Type 0 where
  pub admins : AdminRepository D
  pub sessions : SessionRepository D
  pub locations : LocationRepository D
  pub monitors : MonitorRepository D
  pub health : HealthRepository D
  pub agents : AgentRepository D
  pub runs : RunRepository D
  pub results : ResultRepository D
  pub incidents : IncidentRepository D

-- The repositories of a store, and whether beginning and committing a transaction fail.
pub record Store (D : Type 0) : Type 0 where
  pub repositories : Repositories D
  pub begin_error : D → Option Error
  pub commit_error : D → Option Error

module _ {D A : Type 0} where
  -- What becomes of the transaction that ran from `before`: an error of its body or of the commit
  -- rolls the database back.
  finish_tx : Store D → World D → Result A × World D → Result A × World D
  finish_tx store before (err e, after) = (err e, record after { db = before.db })
  finish_tx store before (ok a, after) = elim (store.commit_error after.db) [
    | none ↦ (ok a, after)
    | some e ↦ (err e, record after { db = before.db })
  ]

  -- `WithinTx`. What the Go closure assigns to variables outside it is the result here.
  unfoldable pub within_tx : Store D → Action D A → Action D A
  unfolding finish_tx
  within_tx store fn w = elim (store.begin_error w.db) [
    | some e ↦ (err e, w)
    | none ↦ finish_tx store w (fn w)
  ]
