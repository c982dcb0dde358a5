-- ===== src/Sqlite/Tables.antt =====
-- The tables of db/migrations/sqlite, as lists of rows in the order of insertion, and what the
-- statements do with a list of rows. A time column holds a time, since `formatTime` and `parseTime`
-- are inverse to one another; a JSON column holds the value that it encodes. Durations are stored in
-- whole milliseconds.
pub mod Laws
pub mod Keys
use text.Mathlib.Text.{◌==◌ as str_eq}
use Prim.Native.String.{compare}
use Prim.Native.Nat.{Ordering}
use xisnove.Prelude.{
  ℕ, zero, suc, ◌+◌, String, Bool, true, false, not, ◌&&◌, ◌||◌, List, [], ◌∷◌, Option, none, some,
  ◌==◌, if◌then◌else◌,
}
use xisnove.Prelude.Int.{ℤ, pos, ◌*ℤ◌, ltb_ℤ, eqb_ℤ, i64, quot}
use xisnove.Prelude.Text.{is_empty}
use xisnove.Domain.Health.{Time, zero_time, LocationHealth, MonitorHealth}
use xisnove.Domain.Incident.{Incident, IncidentEvent}
use xisnove.Domain.Agent.{Location}
use xisnove.Domain.Monitor.{Duration, MonitorKind, ProbeDefinition}
use xisnove.Application.Records.{
  AdminRecord, SessionRecord, MonitorLocation, EnrollmentTokenRecord, AgentRecord, RunStatus,
  ProbeResultRecord,
}

-- What the statements ask of SQLite itself: `julianday` of a time column, and whether one time column
-- is less than another as text.
pub record Engine : Type 0 where
  pub julianday : Time → ℤ
  pub text_before : Time → Time → Bool

pub record MonitorRow : Type 0 where
  pub id : String
  pub name : String
  pub kind : MonitorKind
  pub interval_ms : ℤ
  pub timeout_ms : ℤ
  pub failure_threshold : ℕ
  pub recovery_threshold : ℕ
  pub probe : ProbeDefinition
  pub enabled : Bool
  pub next_run_at : Time
  pub created_at : Time
  pub updated_at : Time

pub record RunRow : Type 0 where
  pub id : String
  pub monitor_id : String
  pub location_id : String
  pub scheduled_for : Time
  pub probe : ProbeDefinition
  pub probe_kind : MonitorKind
  pub timeout_ms : ℤ
  pub status : RunStatus
  pub lease_agent_id : Option String
  pub lease_token_hash : Option (List ℕ)
  pub lease_attempt : ℕ
  pub lease_expires_at : Option Time
  pub resolved_at : Option Time

-- `now` is the clock of the database, which no statement sets. The zero time stands for NULL in the
-- columns of the two health tables.
pub record Db : Type 0 where
  pub now : Time
  pub admins : List AdminRecord
  pub sessions : List SessionRecord
  pub locations : List Location
  pub monitors : List MonitorRow
  pub monitor_locations : List MonitorLocation
  pub agents : List AgentRecord
  pub enrollment_tokens : List EnrollmentTokenRecord
  pub check_runs : List RunRow
  pub probe_results : List ProbeResultRecord
  pub location_health : List LocationHealth
  pub monitor_health : List MonitorHealth
  pub incidents : List Incident
  pub incident_events : List IncidentEvent

-- Duration.Milliseconds(), and back.
unfoldable pub milliseconds : Duration → ℤ
milliseconds d = quot d (pos 1_000_000)

unfoldable pub from_milliseconds : ℤ → Duration
from_milliseconds n = i64 (n *ℤ pos 1_000_000)

-- nullableTimeValue, nullableTime, nullableString
abbrev pub nullable_time_value : Time → Option Time
nullable_time_value t = if eqb_ℤ t zero_time then none else some t

abbrev pub nullable_time : Option Time → Option Time
nullable_time none = none
nullable_time (some t) = nullable_time_value t

abbrev pub nullable_string : String → Option String
nullable_string s = if is_empty s then none else some s

-- column = argument, which is not true if either is NULL
abbrev pub sql_eq : Option String → Option String → Bool
sql_eq (some a) (some b) = str_eq a b
sql_eq _ _ = false

-- column IS NULL
abbrev pub is_null {ℓ} : {A : Type ℓ} → Option A → Bool
is_null none = true
is_null (some a) = false

-- The first row of a table by its order, the rows that a test selects, how many there are, and the
-- update of those rows.
module _ {ℓ} {A : Type ℓ} where
  unfoldable pub find : (A → Bool) → List A → Option A
  find p [] = none
  find p (r ∷ rows) = let later = find p rows in if p r then some r else later

  unfoldable pub first : List A → Option A
  first [] = none
  first (r ∷ rows) = some r

  unfoldable pub select : (A → Bool) → List A → List A
  select p [] = []
  select p (r ∷ rows) = let later = select p rows in if p r then r ∷ later else later

  unfoldable pub count_where : (A → Bool) → List A → ℕ
  count_where p [] = 0
  count_where p (r ∷ rows) = let later = count_where p rows in if p r then suc later else later

  unfoldable pub update_where : (A → Bool) → (A → A) → List A → List A
  update_where p f [] = []
  update_where p f (r ∷ rows) = (if p r then f r else r) ∷ update_where p f rows

  -- ORDER BY: `before` says whether a row comes strictly before another.
  unfoldable pub insert_by : (A → A → Bool) → A → List A → List A
  insert_by before r [] = r ∷ []
  insert_by before r (s ∷ rows) =
      let later = insert_by before r rows in if before s r then s ∷ later else r ∷ s ∷ rows

  unfoldable pub order_by : (A → A → Bool) → List A → List A
  unfolding insert_by
  order_by before [] = []
  order_by before (r ∷ rows) = insert_by before r (order_by before rows)

-- The binary order of TEXT columns.
abbrev pub text_lt : String → String → Bool
text_lt a b = elim (compare a b) [ Ordering.lt ↦ true | _ ↦ false ]

-- ORDER BY two keys: by the first, then by the second.
abbrev pub then_by : Bool → Bool → Bool → Bool
then_by less equal next = less || equal && next
