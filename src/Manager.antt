-- ===== src/Manager.antt =====
-- cmd/main.go: the manager process, from its flags to the start of the controller.
pub mod Slices
pub mod Host
pub mod Scheme
pub mod FlagSet
pub mod Flags
pub mod Arguments
pub mod Process
pub mod Main
pub mod Tls
pub mod Start
pub mod Exits
pub mod Refused
pub mod Calm
