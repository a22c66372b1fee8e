-- ===== src/Pod.antt =====
-- controller/pod_controller.go: the V1 controller, which points one entry port at a Pod.
pub mod State
pub mod Proxy
pub mod Mapping
pub mod Startup
pub mod Ports
pub mod Scheduling
pub mod Launch
pub mod Target
pub mod Single
