-- ===== src/Domain/Incident/Lifecycle.antt =====
-- What `DecideIncident` of internal/domain/incident.go makes of a sequence of verdicts.
use xisnove.Prelude.{
  String, true, ap, ◌∙◌, Option, none, some, ◌≡◌, refl, ◌≢◌, ◌⊎◌, List, [], ◌∷◌, arith,
}
use xisnove.Domain.Health.{HealthState, up, down, degraded, unknown, Time}
use xisnove.Domain.Incident.{
  no_action, open_incident, change, recover, IncidentSeverity, warning, critical, Incident,
  IncidentDecision, severity_for, decide_incident,
}

-- What a decision leaves active: an opened or changed incident is, a recovered one is not.
unfoldable pub active_after : Option Incident → IncidentDecision → Option Incident
active_after active decision = elim decision.action [
  | no_action ↦ active
  | open_incident ↦ some decision.incident
  | change ↦ some decision.incident
  | recover ↦ none
]

-- What holds of the active incident of a monitor.
abbrev pub IsActive : String → Option Incident → Type 0
IsActive m none = Unit
IsActive m (some i) =
    (i.monitor_id ≡ m) × (i.recovered_at ≡ none) × (severity_for i.state ≡ (i.severity, true))

-- An incident of the monitor stays well formed through every decision.
active_after-IsActive :
    (active : Option Incident) (m : String) (health : HealthState) (at : Time) (id : String)
    → IsActive m active
    → IsActive m (active_after active (decide_incident active m health at id))
unfolding active_after decide_incident
active_after-IsActive none m health at id h = ground arith
active_after-IsActive (some i) m health at id h = ground arith

-- The abstract view: the state and severity of the alarm that is raised, if one is.
abbrev pub Alarm : Type 0
Alarm = Option (HealthState × IncidentSeverity)

abbrev pub alarm : Option Incident → Alarm
alarm none = none
alarm (some i) = some (i.state, i.severity)

-- A verdict sets the alarm; one that says nothing leaves it.
pub alarm_after : Alarm → HealthState → Alarm
alarm_after a up = none
alarm_after a down = some (down, critical)
alarm_after a degraded = some (degraded, warning)
alarm_after a unknown = some (unknown, warning)
alarm_after a _ = a

pub alarm-step :
    (active : Option Incident) (m : String) (health : HealthState) (at : Time) (id : String)
    → IsActive m active
    → alarm (active_after active (decide_incident active m health at id))
      ≡ alarm_after (alarm active) health
unfolding active_after decide_incident alarm_after
alarm-step none m health at id h = ground arith
alarm-step (some i) m health at id h = ground arith

-- One verdict on a monitor: its health, the time, and the identifier drawn for a new incident.
pub record Verdict : Type 0 where
  pub health : HealthState
  pub at : Time
  pub new_id : String

-- The active incident after the verdicts, the oldest first, and the decisions taken.
pub follow : String → Option Incident → List Verdict → Option Incident × List IncidentDecision
follow m active [] = (active, [])
follow m active (v ∷ rest) =
    let decision = decide_incident active m v.health v.at v.new_id in
    let (last, decisions) = follow m (active_after active decision) rest in
    (last, decision ∷ decisions)

abbrev pub alarm_of : Alarm → List Verdict → Alarm
alarm_of a [] = a
alarm_of a (v ∷ rest) = alarm_of (alarm_after a v.health) rest

-- The incidents implement the alarm: from no active incident, or a well-formed one, and after any
-- verdicts, the active incident of a monitor, if there is one, has the state and severity of the alarm
-- that the same verdicts raise.
pub follow-alarm :
    (m : String) (active : Option Incident) (verdicts : List Verdict)
    → IsActive m active
    → alarm (follow m active verdicts).0 ≡ alarm_of (alarm active) verdicts
unfolding follow
follow-alarm m active [] h = refl
follow-alarm m active (v ∷ rest) h =
    let decision = decide_incident active m v.health v.at v.new_id in
    follow-alarm m (active_after active decision) rest
      (active_after-IsActive active m v.health v.at v.new_id h)
    ∙ ap (λ a. alarm_of a rest) (alarm-step active m v.health v.at v.new_id h)

-- What tells one incident of a monitor from another: its identifier and when it was opened.
abbrev pub Identity : Type 0
Identity = String × Time

abbrev pub identity : Incident → Identity
identity i = (i.id, i.opened_at)

abbrev pub identity_of : Option Incident → Option Identity
identity_of none = none
identity_of (some i) = some (identity i)

-- Decisions, the oldest first, are the lives of incidents of the monitor, one after another; `current`
-- is the one that is active before them. One is opened when none is, then changed any number of times,
-- and then recovered, each time under its identity.
abbrev pub IsLog : String → Option Identity → List IncidentDecision → Type 0
IsLog m current [] = Unit
IsLog m current (d ∷ rest) = elim d.action [
  | no_action ↦ IsLog m current rest
  | open_incident ↦
      (current ≡ none)
      × (d.incident.monitor_id ≡ m)
      × (d.incident.recovered_at ≡ none)
      × IsLog m (some (identity d.incident)) rest
  | change ↦
      (current ≡ some (identity d.incident))
      × (d.incident.monitor_id ≡ m)
      × (d.incident.recovered_at ≡ none)
      × IsLog m current rest
  | recover ↦
      (current ≡ some (identity d.incident))
      × (d.incident.monitor_id ≡ m)
      × (d.incident.recovered_at ≢ none)
      × IsLog m none rest
]

IsLog-step :
    (active : Option Incident) (m : String) (health : HealthState) (at : Time) (id : String)
    (rest : List IncidentDecision)
    → IsActive m active
    → let decision = decide_incident active m health at id in
      IsLog m (identity_of (active_after active decision)) rest
      → IsLog m (identity_of active) (decision ∷ rest)
unfolding active_after decide_incident
IsLog-step none m health at id rest a h = ground arith
IsLog-step (some i) m health at id rest a h = ground arith

-- Whatever the verdicts, the incidents of a monitor follow one another: from no active incident, or a
-- well-formed one, an incident is opened only when none is active, and each change and each recovery is
-- of the incident that is active, by its identifier and opening time, and of this monitor. A recovered
-- incident has the time of its recovery, and an opened or changed one has none.
pub follow-IsLog :
    (m : String) (active : Option Incident) (verdicts : List Verdict)
    → IsActive m active
    → IsLog m (identity_of active) (follow m active verdicts).1
unfolding follow
follow-IsLog m active [] a = tt
follow-IsLog m active (v ∷ rest) a =
    let decision = decide_incident active m v.health v.at v.new_id in
    IsLog-step active m v.health v.at v.new_id (follow m (active_after active decision) rest).1 a (
      follow-IsLog m (active_after active decision) rest
        (active_after-IsActive active m v.health v.at v.new_id a))

-- A decision about an active incident, whatever the verdict, is about that incident: its identifier,
-- monitor and opening time stay, and an action other than none reports the state before it.
decide_incident_same :
    (i : Incident) (m : String) (health : HealthState) (at : Time) (id : String)
    → let d = decide_incident (some i) m health at id in
      (d.incident.id ≡ i.id)
      × (d.incident.monitor_id ≡ i.monitor_id)
      × (d.incident.opened_at ≡ i.opened_at)
      × ((d.action ≡ no_action) ⊎ (d.previous_state ≡ i.state))
unfolding decide_incident
decide_incident_same i m health at id = ground arith

-- The same verdict a second time, at any later time, takes no action.
decide_incident_idem :
    (active : Option Incident) (m : String) (health : HealthState) (at later : Time)
    (id other_id : String)
    → let after = active_after active (decide_incident active m health at id) in
      (decide_incident after m health later other_id).action ≡ no_action
unfolding active_after decide_incident
decide_incident_idem none m health at later id other_id = ground arith
decide_incident_idem (some i) m health at later id other_id = ground arith
