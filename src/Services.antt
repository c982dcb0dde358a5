-- ===== src/Services.antt =====
-- The services of internal/application on the store of internal/adapters/sqlitecompat.
pub mod Atomic
pub mod Results
pub mod Uploads
pub mod Admins
pub mod Enrolment
pub mod Decisions
pub mod Projection
pub mod Staleness
use xisnove.Prelude.{Option}
use xisnove.Result.{Error}
use xisnove.Domain.Monitor.Build.{Library}
use xisnove.Application.Environment.{Environment}
use xisnove.Sqlite.Tables.{Engine, Db}
use xisnove.Sqlite.Assembly.{new_store}

-- The database engine and the library that the store is built on, and when a transaction cannot begin
-- or be committed.
pub record Backend : Type 0 where
  pub engine : Engine
  pub library : Library
  pub begin_error : Db → Option Error
  pub commit_error : Db → Option Error

-- An environment with this store.
abbrev pub on_sqlite : Backend → Environment Db → Environment Db
on_sqlite b env = record env { store = new_store b.engine b.library b.begin_error b.commit_error }
