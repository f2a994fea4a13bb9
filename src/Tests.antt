-- ===== src/Tests.antt =====
-- A small server that keeps its objects in lists, resources to run on, and runs of the code.
pub mod Server
pub mod Copies
pub mod Data
mod Runs
mod Steady
mod Startup
pub mod Histories
mod Keeping
pub mod Settling
mod Suffix
mod Living
mod Parts
mod Manifests
mod Handlers
mod Examples
