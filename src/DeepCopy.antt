-- ===== src/DeepCopy.antt =====
-- api/v1alpha1/zz_generated.deepcopy.go: the copies of the API types, in a memory with pointers.
pub mod Heap
pub mod Goes
pub mod Layout
pub mod Pointers
pub mod Arrays
pub mod Memory
pub mod StorageTemplate
pub mod ArchiveSnapshot
pub mod PodMonitor
pub mod Spec
pub mod Status
pub mod StarknetRpc
pub mod StarknetRpcList
pub mod Deep
pub mod Separate
