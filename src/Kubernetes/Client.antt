-- ===== src/Kubernetes/Client.antt =====
-- The client library and the API server behind it, which the program calls and does not contain.
-- Every answer is the server's choice: a theorem for all clients is a theorem for every server,
-- with conflicts, lost requests and other writers.
use starknet_operators.Prelude.{String, Bool, List}
use starknet_operators.Kubernetes.Meta.{
  NamespacedName, Condition, DeletionPropagation, ConditionStatus,
}
use starknet_operators.Kubernetes.Core.{Pod, Pvc, Job}
use starknet_operators.Kubernetes.Monitoring.{PodMonitorObject}
use starknet_operators.Prelude.{Option, ◌≡◌, true, if◌then◌else◌, ◌==◌}
use starknet_operators.V1alpha1.{StarknetRpc}

pub data Answer (F A : Type 0) : Type 0 where
  ok : A → Answer F A
  err : F → Answer F A

-- The calls of client.Client on one kind of object. A call that is answered `ok` writes the
-- server's copy of the object into its argument; one that fails leaves the argument alone.
pub record Resource (World Fault T : Type 0) : Type 0 where
  pub create : T → World → Answer Fault T × World
  pub get : NamespacedName → World → Answer Fault T × World
  pub update : T → World → Answer Fault T × World
  pub delete : T → Option DeletionPropagation → World → Answer Fault (Unit {0}) × World

-- A GET through the proxy subresource of a pod.
pub record ProxyRequest : Type 0 where
  pub scheme : String
  pub pod : NamespacedName
  pub port : String
  pub path : String

-- An event of a recorder; every one of the program's is of type "Normal".
pub record Event : Type 0 where
  pub reason : String
  pub note : String

pub record Kube : Type 1 where
  pub World : Type 0
  pub Fault : Type 0
  pub is_not_found : Fault → Bool
  pub is_already_exists : Fault → Bool
  pub is_bad_request : Fault → Bool
  pub is_service_unavailable : Fault → Bool
  pub pods : Resource World Fault Pod
  pub pvcs : Resource World Fault Pvc
  pub jobs : Resource World Fault Job
  pub pod_monitors : Resource World Fault PodMonitorObject
  pub get_rpc : NamespacedName → World → Answer Fault StarknetRpc × World
  pub update_status : StarknetRpc → World → Answer Fault StarknetRpc × World
  pub proxy_get : ProxyRequest → World → Answer Fault (Unit {0}) × World
  pub record_event : Event → World → World
  -- meta.SetStatusCondition and meta.IsStatusConditionTrue of apimachinery
  pub set_status_condition : List Condition → Condition → List Condition
  pub is_status_condition_true : List Condition → String → Bool

abbrev pub is_true : ConditionStatus → Bool
is_true ConditionStatus.condition_true = true
is_true ConditionStatus.condition_false = Bool.false
is_true ConditionStatus.condition_unknown = Bool.false

-- What apimachinery documents of its two functions on conditions.
pub record HasConditions (k : Kube) : Type 0 where
  -- SetStatusCondition sets the condition of that type and leaves the others alone.
  pub is_true-set :
      (cs : List Condition) (c : Condition) (t : String)
      → k.is_status_condition_true (k.set_status_condition cs c) t
        ≡ (if c.type == t then is_true c.status else k.is_status_condition_true cs t)

-- The server keeps the status that it accepts, and an update of the status changes nothing else:
-- one that carries an old version of the resource is refused.
abbrev pub IsEcho : {F : Type 0} → StarknetRpc → Answer F StarknetRpc → Type 0
IsEcho r (ok r') = (r'.status.conditions ≡ r.status.conditions) × (r'.spec ≡ r.spec)
IsEcho r (err _) = Unit

pub record KeepsStatus (k : Kube) : Type 0 where
  pub echo : (r : StarknetRpc) (w : k.World) → IsEcho r (k.update_status r w).0
