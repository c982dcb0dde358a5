-- ===== src/Services/Atomic.antt =====
-- What a request of internal/application that fails leaves behind.
use Prim.Native.String.{count}
use xisnove.Prelude.{ltb, ◌≡◌, refl, String, not}
use xisnove.Result.{invalid_enrollment_token, weak_password}
use xisnove.Prelude.Text.{is_empty}
use xisnove.Action.{lift, run_query, ask, ask_or_fail, ensure}
use xisnove.Application.Environment.{Environment}
use xisnove.Application.Store.Atomic.{
  IsAtomic, within_tx-IsAtomic, ReadsOnly-run_query, ReadsOnly-lift, ReadsOnly-ask,
  ReadsOnly-ask_or_fail, ReadsOnly-ensure, IsAtomic-bind, IsAtomic-return,
}
use xisnove.Application.Configuration.{
  CreateMonitorCommand, create_monitor, insert_monitor, or_invalid, new_configured_monitor,
}
use xisnove.Application.Agents.{EnrollAgentCommand, enroll, enroll_in}
use xisnove.Application.Auth.{Mail, Passwords, create_first, bootstrap_admin, normalize_email}
use xisnove.Sqlite.Tables.{Db}
use xisnove.Sqlite.Monitors.{get_location}
use xisnove.Services.{Backend, on_sqlite}

reads_location : (id : String) (db : Db) → (get_location id db).1 ≡ db
unfolding get_location
reads_location id db = refl

module _ (b : Backend) (env : Environment Db) where
  -- Creating a monitor, its assignment and its first health is one step: if it fails, for whatever
  -- reason and at whatever statement, the database is as it was.
  pub create_monitor-IsAtomic :
      (command : CreateMonitorCommand)
      → IsAtomic (create_monitor (on_sqlite b env) b.library command)
  unfolding create_monitor
  create_monitor-IsAtomic command =
      IsAtomic-bind (run_query (get_location command.location_id)) _
        (ReadsOnly-run_query (get_location command.location_id)
          (reads_location command.location_id))
        λ l. IsAtomic-bind (ask env.now) _ (ReadsOnly-ask env.now) λ now.
          IsAtomic-bind (ask env.new_id) _ (ReadsOnly-ask env.new_id) λ id.
            let made =
              or_invalid "monitor" "contains invalid configuration"
                (new_configured_monitor b.library id command now) in
            IsAtomic-bind (lift made) _ (ReadsOnly-lift made) λ monitor.
              IsAtomic-return _
                (λ _. record {
                  monitor = monitor;
                  location_id = command.location_id;
                  required_location = command.required_location;
                })
                (within_tx-IsAtomic (on_sqlite b env).store
                  (insert_monitor (on_sqlite b env) b.library monitor command now))

  -- Enrolling an agent is one step: if it fails, the database is as it was, and the token is not used up.
  pub enroll-IsAtomic : (command : EnrollAgentCommand) → IsAtomic (enroll (on_sqlite b env) command)
  unfolding enroll
  enroll-IsAtomic command =
      let asked = not (is_empty command.token) in
      IsAtomic-bind (ensure asked invalid_enrollment_token) _
        (ReadsOnly-ensure asked invalid_enrollment_token)
        λ _.
          IsAtomic-bind (ask_or_fail env.new_token) _ (ReadsOnly-ask_or_fail env.new_token)
            λ credential. IsAtomic-bind (ask env.now) _ (ReadsOnly-ask env.now) λ now.
              IsAtomic-return _ (λ agent. record { agent = agent; credential = credential.raw })
                (within_tx-IsAtomic (on_sqlite b env).store
                  (enroll_in (on_sqlite b env) command credential now))

  -- Creating the first administrator is one step: if it fails, the database is as it was.
  pub bootstrap_admin-IsAtomic :
      (mail : Mail) (passwords : Passwords) (email password : String)
      → IsAtomic (bootstrap_admin (on_sqlite b env) mail passwords email password)
  unfolding bootstrap_admin
  bootstrap_admin-IsAtomic mail passwords email password =
      IsAtomic-bind (lift (normalize_email mail email)) _
        (ReadsOnly-lift (normalize_email mail email))
        λ normalized.
          let long = not (ltb (count password) 16) in
          IsAtomic-bind (ensure long weak_password) _ (ReadsOnly-ensure long weak_password) λ _.
            IsAtomic-bind (ask_or_fail (passwords.hash password)) _
              (ReadsOnly-ask_or_fail (passwords.hash password))
              λ hash. IsAtomic-bind (ask env.new_id) _ (ReadsOnly-ask env.new_id) λ id.
                IsAtomic-bind (ask env.now) _ (ReadsOnly-ask env.now) λ now.
                  within_tx-IsAtomic (on_sqlite b env).store (
                    create_first (on_sqlite b env) mail passwords (record {
                      id = id;
                      email = normalized;
                      password_hash = hash;
                      created_at = now;
                    }))
