-- ===== src/Total.antt =====
-- What it takes for the code to return: replies that have a result where it is read, and objects of
-- the server whose slices and pointers are there where the code does not test them.
pub mod Create
pub mod Handlers
pub mod RpcPod
pub mod Monitor
pub mod Run
use starknet_operators.Prelude.{Bool, true, false, ◌≡◌, Option, none, some, List, [], ◌∷◌}
use starknet_operators.Kubernetes.Meta.{NamespacedName}
use starknet_operators.Kubernetes.Core.{Pod, Container, ContainerPort}
use starknet_operators.Kubernetes.Monitoring.{PodMonitorObject, PodMetricsEndpoint}
use starknet_operators.Kubernetes.Client.{Kube, Resource, Answer, ok, err}
use starknet_operators.Pass.{Reply, Error, next_loop}

abbrev is_some : {A : Type 0} → Option A → Bool
is_some none = false
is_some (some _) = true

abbrev goes_with : {F A : Type 0} → Option A → Option (Error F) → Bool
goes_with result (some next_loop) = is_some result
goes_with result _ = true

-- A reply with `ErrNextLoop` has a result.
abbrev pub IsSound : {F : Type 0} → Reply F → Type 0
IsSound reply = goes_with reply.result reply.error ≡ true

abbrev any_port : List ContainerPort → Bool
any_port [] = false
any_port (_ ∷ _) = true

abbrev pub first_has_port : List Container → Bool
first_has_port [] = false
first_has_port (c ∷ _) = any_port c.ports

-- The pod has a container, and its first container a port.
abbrev pub HasPort : Pod → Type 0
HasPort pod = first_has_port pod.spec.containers ≡ true

abbrev pub first_names_port : List PodMetricsEndpoint → Bool
first_names_port [] = true
first_names_port (e ∷ _) = is_some e.port

-- The first endpoint, if there is one, names its port.
abbrev pub NamesPort : PodMonitorObject → Type 0
NamesPort monitor = first_names_port monitor.spec.pod_metrics_endpoints ≡ true

abbrev pub OkIs : {F A : Type 0} → (A → Type 0) → Answer F A → Type 0
OkIs G (ok a) = G a
OkIs G (err _) = Unit

-- Every object that the server sends is good.
pub record Sends {W F T : Type 0} (G : T → Type 0) (r : Resource W F T) : Type 0 where
  pub create : (x : T) (w : W) → OkIs G (r.create x w).0
  pub get : (n : NamespacedName) (w : W) → OkIs G (r.get n w).0
  pub update : (x : T) (w : W) → OkIs G (r.update x w).0
