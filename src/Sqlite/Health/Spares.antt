-- ===== src/Sqlite/Health/Spares.antt =====
-- Which statements leave the tables alone of which the health of a monitor is made.
use xisnove.Prelude.{◌≡◌, refl, String, arith}
use xisnove.Result.{ok}
use xisnove.Action.{Query}
use xisnove.Domain.Health.{MonitorHealth}
use xisnove.Domain.Incident.{Incident, IncidentEvent}
use xisnove.Sqlite.Tables.{Db}
use xisnove.Sqlite.Health.{list_required_locations, get_monitor_health, upsert_monitor_health}
use xisnove.Sqlite.Incidents.{get_active, open_incident_row, update_incident, append_incident_event}
use xisnove.Sqlite.Incidents.Active.{active_of}

-- The lists of required locations agree where the tables agree that they are read from.
pub listed_same :
    (m : String) (d d' : Db)
    → d'.monitor_locations ≡ d.monitor_locations
    → d'.location_health ≡ d.location_health
    → (list_required_locations m d').0 ≡ (list_required_locations m d).0
unfolding list_required_locations
listed_same m d d' a h = rw (a, h) refl

pub health_same :
    (m : String) (d d' : Db)
    → d'.monitor_health ≡ d.monitor_health
    → (get_monitor_health m d').0 ≡ (get_monitor_health m d).0
unfolding get_monitor_health
health_same m d d' h = rw h refl

-- A statement that leaves the tables alone of which the health of monitors is made.
pub record SparesHealth (q : Query Db (Unit {0})) : Type 0 where
  pub assignments : (d : Db) → (q d).1.monitor_locations ≡ d.monitor_locations
  pub locations : (d : Db) → (q d).1.location_health ≡ d.location_health
  pub monitors : (d : Db) → (q d).1.monitor_health ≡ d.monitor_health

pub open_incident_row-SparesHealth : (i : Incident) → SparesHealth (open_incident_row i)
unfolding open_incident_row
open_incident_row-SparesHealth i = record {
  assignments = λ d. ground arith;
  locations = λ d. ground arith;
  monitors = λ d. ground arith;
}

pub update_incident-SparesHealth : (i : Incident) → SparesHealth (update_incident i)
unfolding update_incident
update_incident-SparesHealth i = record {
  assignments = λ d. refl;
  locations = λ d. refl;
  monitors = λ d. refl;
}

pub append_incident_event-SparesHealth :
    (e : IncidentEvent) → SparesHealth (append_incident_event e)
unfolding append_incident_event
append_incident_event-SparesHealth e = record {
  assignments = λ d. ground arith;
  locations = λ d. ground arith;
  monitors = λ d. ground arith;
}

pub appended : (e : IncidentEvent) (d : Db) → (append_incident_event e d).1.incidents ≡ d.incidents
unfolding append_incident_event
appended e d = ground arith

pub upsert_assignments :
    (h : MonitorHealth) (d : Db)
    → (upsert_monitor_health h d).1.monitor_locations ≡ d.monitor_locations
unfolding upsert_monitor_health
upsert_assignments h d = ground arith

pub upsert_locations :
    (h : MonitorHealth) (d : Db) → (upsert_monitor_health h d).1.location_health ≡ d.location_health
unfolding upsert_monitor_health
upsert_locations h d = ground arith

pub upsert_incidents :
    (h : MonitorHealth) (d : Db) → (upsert_monitor_health h d).1.incidents ≡ d.incidents
unfolding upsert_monitor_health
upsert_incidents h d = ground arith

pub listed_stays : (m : String) (d : Db) → (list_required_locations m d).1 ≡ d
unfolding list_required_locations
listed_stays m d = refl

pub gets_stays : (m : String) (d : Db) → (get_monitor_health m d).1 ≡ d
unfolding get_monitor_health
gets_stays m d = refl

pub active_stays : (m : String) (d : Db) → (get_active m d).1 ≡ d
unfolding get_active
active_stays m d = refl

pub active_read : (m : String) (d : Db) → (get_active m d).0 ≡ ok (active_of m d)
unfolding get_active
active_read m d = refl
