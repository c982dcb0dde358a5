-- ===== src/Agent.antt =====
-- agent/: the process that leases work from the control plane, probes, and uploads the results.
pub mod Controlplane
pub mod Worker
pub mod Probe
