-- ===== src/Controller/Manifest.antt =====
-- internal/controller: the objects that the reconciler wants for a resource, each in a child.
pub mod Names
pub mod Disjoint
pub mod Links
pub mod Storage
pub mod RestoreJob
pub mod RpcPod
pub mod Monitor
