-- ===== src/Haproxy.antt =====
-- Package haproxy: the client of the Data Plane API.
pub mod Types
pub mod Response
pub mod Api
pub mod Handle
pub mod Backends
pub mod Servers
pub mod Services
pub mod Probe
pub mod Scope
pub mod Errors
pub mod Version
pub mod Naming
pub mod Paths
pub mod Plane
pub mod Writes
pub mod Requests
pub mod Interface
