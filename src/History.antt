-- ===== src/History.antt =====
-- Several runs of the reconciler, one after the other, and what the log of each of them says.
pub mod Replay
pub mod Steps
pub mod Marks
pub mod Earning
pub mod Serving
pub mod Runs
pub mod Remains
pub mod Kept
pub mod Settles
pub mod Fails
pub mod Life
pub mod Opening
pub mod Judging
pub mod Waiting
pub mod Arrives
pub mod Course
