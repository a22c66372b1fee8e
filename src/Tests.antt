-- ===== src/Tests.antt =====
-- Concrete runs of the program, and each theorem at a concrete input.
mod Fixtures
mod Strings
mod Client
mod Services
mod Worker
mod Plane
mod Turns
mod Processes
mod Desk
mod Runs
mod Pods
mod Options
mod Stored
