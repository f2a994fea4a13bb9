-- ===== src/DeepCopy/Deep.antt =====
-- The deep copies return, show what was copied, and share nothing with it.
pub mod Fields
pub mod StorageTemplate
pub mod ArchiveSnapshot
pub mod PodMonitor
pub mod Status
pub mod Spec
pub mod StarknetRpc
pub mod StarknetRpcList
