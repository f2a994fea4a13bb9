-- ===== src/Kubernetes.antt =====
-- What the program uses of Kubernetes: the fields of the API objects that it reads or writes, as
-- its literals name them, and the client library, as a parameter.
pub mod Meta
pub mod Core
pub mod Monitoring
pub mod Client
