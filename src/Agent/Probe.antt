-- ===== src/Agent/Probe.antt =====
-- agent/probe: the executors of the three kinds of probes, and the addresses they may reach.
pub mod Addresses
pub mod Policy
pub mod Steps
pub mod Diagnostic
pub mod Tcp
pub mod Dns
pub mod Http
pub mod Dispatcher
