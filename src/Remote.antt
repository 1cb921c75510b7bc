-- ===== src/Remote.antt =====
-- remote/: pings that a Huawei VRP router runs for the prober over SSH.
pub mod Huawei
pub mod Targets
pub mod Dialer
pub mod Runner
pub mod Session
pub mod Scheduler
