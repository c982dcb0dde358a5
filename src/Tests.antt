-- ===== src/Tests.antt =====
-- The theorems at concrete inputs.
mod Domain
mod Monitors
mod Store
mod Requests
mod Services
mod Accounts
mod Staleness
mod Worker
mod Probes
mod Pages
mod Agents
mod Api
