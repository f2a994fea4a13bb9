-- ===== src/Controller.antt =====
-- internal/controller: the handlers of the StarknetRPC reconciler and the objects that they want.
pub mod Manifest
pub mod Pvc
pub mod Restore
pub mod Pod
pub mod PodMonitor
pub mod Reconcile
