-- ===== src/Domain.antt =====
-- internal/domain: the rules that do not depend on storage or transport.
pub mod Health
pub mod Incident
pub mod Agent
pub mod Monitor
