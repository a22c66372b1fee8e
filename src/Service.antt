-- ===== src/Service.antt =====
-- controller/service_controller.go: the V2 controller, which maps the ports of Services to ports of
-- HAProxy.
pub mod State
pub mod Maps
pub mod Ports
pub mod FirstFree
pub mod Consistency
pub mod Cluster
pub mod Proxy
pub mod Mapping
pub mod Worker
pub mod Step
pub mod Reach
pub mod Invariants
pub mod Conflict
pub mod Frame
pub mod Trace
pub mod Batch
pub mod Turns
pub mod Failure
pub mod Removal
pub mod Safety
pub mod Resync
pub mod Release
pub mod Commit
pub mod Listing
pub mod Discard
pub mod Outcome
pub mod Frontends
pub mod Route
pub mod Quiet
pub mod Atomic
pub mod Drain
pub mod Launch
pub mod Running
pub mod Stuck
pub mod Lockstep
