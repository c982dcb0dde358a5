-- ===== src/Sqlite/Accounts.antt =====
-- The adminRepository, sessionRepository and agentRepository of
-- internal/adapters/sqlitecompat/store.go with db/generated/sqlite/auth.sql.go and agents.sql.go.
pub mod Tokens
use text.Mathlib.Text.{◌==◌ as str_eq}
use xisnove.Prelude.{
  ℕ, String, Bool, not, ◌&&◌, ◌||◌, List, [], ◌∷◌, ◌++◌, Option, none, some, any, length, bytes_eq,
  ◌==◌, if◌then◌else◌,
}
use xisnove.Prelude.Int.{ltb_ℤ}
use xisnove.Result.{Result, ok, err, conflict, not_found}
use xisnove.Action.{Query}
use xisnove.Domain.Health.{Time}
use xisnove.Domain.Agent.{AgentCapability}
use xisnove.Application.Records.{AdminRecord, SessionRecord, EnrollmentTokenRecord, AgentRecord}
use xisnove.Sqlite.Tables.{
  Engine, Db, is_null, nullable_time, nullable_time_value, find, count_where, update_where,
}
use xisnove.Sqlite.Mapping.{map_agent}
use xisnove.Sqlite.Runs.{has_location}

unfoldable pub count_admins : Query Db ℕ
count_admins db = (ok (length db.admins), db)

unfoldable pub create_admin : AdminRecord → Query Db (Unit {0})
create_admin a db =
    if any (λ (k : AdminRecord). str_eq k.id a.id || str_eq k.email a.email) db.admins
    then (err conflict, db)
    else (ok tt, record db { admins = db.admins ++ a ∷ [] })

or_not_found {ℓ} : {A : Type ℓ} → Option A → Result A
or_not_found none = err not_found
or_not_found (some a) = ok a

unfoldable pub find_admin_by_email : String → Query Db AdminRecord
unfolding or_not_found
find_admin_by_email email db =
    (or_not_found (find (λ (a : AdminRecord). str_eq a.email email) db.admins), db)

unfoldable pub create_session : SessionRecord → Query Db (Unit {0})
create_session s db =
    if any (λ (k : SessionRecord). str_eq k.id s.id || bytes_eq k.token_hash s.token_hash)
        db.sessions
      || not (any (λ (a : AdminRecord). str_eq a.id s.admin_id) db.admins)
    then (err conflict, db)
    else (
      ok tt,
      record db {
        sessions = db.sessions ++ record s { revoked_at = nullable_time s.revoked_at } ∷ [];
      },
    )

unfoldable pub create_enrollment_token : EnrollmentTokenRecord → Query Db (Unit {0})
create_enrollment_token t db =
    if any (λ (k : EnrollmentTokenRecord). str_eq k.id t.id || bytes_eq k.token_hash t.token_hash)
        db.enrollment_tokens
      || not (has_location t.location_id db)
    then (err conflict, db)
    else (
      ok tt,
      record db {
        enrollment_tokens = db.enrollment_tokens ++ record t { consumed_at = none } ∷ [];
      },
    )

-- The version and the times of a new agent are NULL where they are empty.
unfoldable pub create_agent : AgentRecord → Query Db (Unit {0})
create_agent a db =
    if any
        (λ (k : AgentRecord).
          str_eq k.agent.id a.agent.id || bytes_eq k.credential_hash a.credential_hash)
        db.agents
      || not (has_location a.agent.location_id db)
    then (err conflict, db)
    else (
      ok tt,
      record db {
        agents =
            db.agents
            ++ record a { agent = record a.agent { revoked_at = nullable_time a.agent.revoked_at } }
              ∷ [];
      },
    )

mapped : Option AgentRecord → Result AgentRecord
mapped none = err not_found
mapped (some a) = map_agent a

unfoldable pub get_agent : String → Query Db AgentRecord
unfolding mapped
get_agent id db = (mapped (find (λ (a : AgentRecord). str_eq a.agent.id id) db.agents), db)

-- WHERE credential_hash = ? AND revoked_at IS NULL
abbrev pub has_credential : List ℕ → AgentRecord → Bool
has_credential hash a = bytes_eq a.credential_hash hash && is_null a.agent.revoked_at

unfoldable pub find_active_by_credential_hash : List ℕ → Query Db AgentRecord
unfolding mapped
find_active_by_credential_hash hash db = (mapped (find (has_credential hash) db.agents), db)

abbrev pub has_generation : String → ℕ → AgentRecord → Bool
has_generation id generation a =
    str_eq a.agent.id id
    && is_null a.agent.revoked_at
    && a.agent.credential_generation == generation

unfoldable pub heartbeat_row : ℕ → String → List AgentCapability → Time → AgentRecord → AgentRecord
heartbeat_row generation version capabilities at a = record a {
  agent = record a.agent {
    version = version;
    credential_generation = generation;
    capabilities = capabilities;
    last_seen_at = at;
  };
}

unfoldable pub update_heartbeat : String → ℕ → String → List AgentCapability → Time → Query Db Bool
update_heartbeat id generation version capabilities at db = (
  ok (count_where (has_generation id generation) db.agents == 1),
  record db {
    agents =
        update_where (has_generation id generation)
          (heartbeat_row generation version capabilities at) db.agents;
  },
)

module _ (engine : Engine) where
  -- WHERE token_hash = ? AND julianday(expires_at) > julianday(now) AND revoked_at IS NULL
  abbrev pub is_live_session : List ℕ → Time → SessionRecord → Bool
  is_live_session hash now s =
      bytes_eq s.token_hash hash
      && ltb_ℤ (engine.julianday now) (engine.julianday s.expires_at)
      && is_null s.revoked_at

  unfoldable pub find_active_session : List ℕ → Time → Query Db SessionRecord
  unfolding or_not_found
  find_active_session hash now db = (or_not_found (find (is_live_session hash now) db.sessions), db)

  -- WHERE token_hash = ? AND consumed_at IS NULL AND julianday(expires_at) > julianday(now)
  abbrev pub is_usable_token : List ℕ → Time → EnrollmentTokenRecord → Bool
  is_usable_token hash now t =
      bytes_eq t.token_hash hash
      && is_null t.consumed_at
      && ltb_ℤ (engine.julianday now) (engine.julianday t.expires_at)

  unfoldable pub consume_row : Time → EnrollmentTokenRecord → EnrollmentTokenRecord
  consume_row at t = record t { consumed_at = nullable_time_value at }

  returned : Time → Option EnrollmentTokenRecord → Option EnrollmentTokenRecord
  returned at none = none
  returned at (some t) = some (consume_row at t)

  unfoldable pub consume_enrollment_token :
      List ℕ → Time → Time → Query Db (Option EnrollmentTokenRecord)
  unfolding returned
  consume_enrollment_token hash now consumed_at db = (
    ok (returned consumed_at (find (is_usable_token hash now) db.enrollment_tokens)),
    record db {
      enrollment_tokens =
          update_where (is_usable_token hash now) (consume_row consumed_at) db.enrollment_tokens;
    },
  )
