-- ===== src/Phases.antt =====
-- How the phases of a resource follow one another within a run (internal/controller).
pub mod Start
pub mod Reset
pub mod Gate
pub mod Progress
pub mod Disabled
pub mod Job
pub mod Idle
pub mod Stays
pub mod Steady
pub mod Quiet
pub mod Finished
pub mod Delay
pub mod Calls
