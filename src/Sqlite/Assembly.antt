-- ===== src/Sqlite/Assembly.antt =====
-- `newRepositories` and `NewStore` of internal/adapters/sqlitecompat/store.go: the interfaces of the
-- application, filled with the statements on the tables.
use xisnove.Prelude.{Option}
use xisnove.Result.{Error}
use xisnove.Domain.Monitor.Build.{Library}
use xisnove.Application.Store.{Repositories, Store}
use xisnove.Sqlite.Tables.{Engine, Db}
use xisnove.Sqlite.Runs
use xisnove.Sqlite.Monitors
use xisnove.Sqlite.Health
use xisnove.Sqlite.Incidents
use xisnove.Sqlite.Results
use xisnove.Sqlite.Accounts

abbrev pub new_repositories : Engine → Library → Repositories Db
new_repositories engine library = record {
  admins = record {
    count = Accounts.count_admins;
    create = Accounts.create_admin;
    find_by_email = Accounts.find_admin_by_email;
  };
  sessions = record {
    create = Accounts.create_session;
    find_active_by_token_hash = Accounts.find_active_session engine;
  };
  locations = record { create = Monitors.create_location; get = Monitors.get_location };
  monitors = record {
    create = Monitors.create_monitor;
    get = Monitors.get_monitor library;
    assign_location = Monitors.assign_location;
    get_assignment = Monitors.get_assignment;
    list_due = Monitors.list_due engine library;
    advance_next_run = Monitors.advance_next_run engine;
  };
  health = record {
    get_location = Health.get_location_health;
    upsert_location = Health.upsert_location_health;
    list_required_locations = Health.list_required_locations;
    list_stale = Health.list_stale engine;
    claim_stale = Health.claim_stale engine;
    get_monitor = Health.get_monitor_health;
    upsert_monitor = Health.upsert_monitor_health;
  };
  agents = record {
    create_enrollment_token = Accounts.create_enrollment_token;
    consume_enrollment_token = Accounts.consume_enrollment_token engine;
    create = Accounts.create_agent;
    get = Accounts.get_agent;
    find_active_by_credential_hash = Accounts.find_active_by_credential_hash;
    update_heartbeat = Accounts.update_heartbeat;
  };
  runs = record {
    database_now = Runs.database_now;
    insert = Runs.insert_run;
    claim_probe = Runs.claim_probe engine;
    get = Runs.get_run;
    resolve = Runs.resolve_run;
  };
  results = record {
    get_by_id = Results.get_result_by_id;
    get_by_run = Results.get_result_by_run;
    insert = Results.insert_result;
  };
  incidents = record {
    get_active = Incidents.get_active;
    open_new = Incidents.open_incident_row;
    update = Incidents.update_incident;
    append_event = Incidents.append_incident_event;
  };
}

-- Whether a transaction can begin and be committed is the database's to say.
abbrev pub new_store : Engine → Library → (Db → Option Error) → (Db → Option Error) → Store Db
new_store engine library begin_error commit_error = record {
  repositories = new_repositories engine library;
  begin_error = begin_error;
  commit_error = commit_error;
}
