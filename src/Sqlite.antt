-- ===== src/Sqlite.antt =====
-- internal/adapters/sqlitecompat/store.go with the statements of db/generated/sqlite: the store that
-- the SQLite and Turso profiles share.
pub mod Tables
pub mod Mapping
pub mod Runs
pub mod Monitors
pub mod Health
pub mod Incidents
pub mod Results
pub mod Accounts
pub mod Assembly
