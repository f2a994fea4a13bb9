-- ===== src/Kubernetes/Meta.antt =====
-- apimachinery's metadata types, with the fields that the program sets or reads. A nil pointer is
-- `none`; a nil map and an empty one are told apart where the program does.
use starknet_operators.Prelude.{ℕ, String, Bool, Option, List}
use starknet_operators.Prelude.StringMap.{StringMap}

-- types.NamespacedName
pub record NamespacedName : Type 0 where
  pub name : String
  pub namespace : String

-- metav1.OwnerReference
pub record OwnerReference : Type 0 where
  pub api_version : String
  pub kind : String
  pub name : String
  pub uid : String
  pub controller : Option Bool
  pub block_owner_deletion : Option Bool

-- metav1.ObjectMeta; `labels` and `annotations` are nil at `none`
pub record ObjectMeta : Type 0 where
  pub name : String
  pub namespace : String
  pub uid : String
  pub labels : Option StringMap
  pub annotations : Option StringMap
  pub owner_references : List OwnerReference

-- metav1.ListMeta
pub record ListMeta : Type 0 where
  pub resource_version : String
  pub continue : String
  pub remaining_item_count : Option ℕ

-- client.ObjectKeyFromObject
abbrev pub object_key : ObjectMeta → NamespacedName
object_key m = record { name = m.name; namespace = m.namespace }

-- metav1.ConditionStatus
pub data ConditionStatus : Type 0 where
  condition_true condition_false condition_unknown : ConditionStatus

-- metav1.Condition; the transition time is kept by the client library
pub record Condition : Type 0 where
  pub type : String
  pub status : ConditionStatus
  pub reason : String
  pub message : String

-- metav1.DeletionPropagation
pub data DeletionPropagation : Type 0 where
  background foreground orphan : DeletionPropagation
