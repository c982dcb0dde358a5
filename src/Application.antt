-- ===== src/Application.antt =====
-- internal/application: the services, over the repositories that a store gives them.
pub mod Schedule
pub mod Records
pub mod Store
pub mod Environment
pub mod Projection
pub mod Results
pub mod Scheduler
pub mod Leasing
pub mod Configuration
pub mod Agents
pub mod Auth
pub mod Bounds
