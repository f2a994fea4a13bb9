-- ===== src/V1alpha1.antt =====
-- api/v1alpha1/starknetrpc_types.go: the StarknetRPC resource. An absent optional field is `none`.
-- A nil slice of conditions and an empty one are the same list.
use starknet_operators.Prelude.{String, Bool, Option, List}
use starknet_operators.Prelude.StringMap.{StringMap}
use starknet_operators.Kubernetes.Meta.{ObjectMeta, ListMeta, Condition}
use starknet_operators.Kubernetes.Core.{ResourceRequirements, Toleration, SecretKeySelector}

pub record StorageTemplate : Type 0 where
  pub size : String
  pub class : String

pub record ArchiveSnapshot : Type 0 where
  pub enable : Option Bool
  pub file_name : String
  pub checksum : String
  pub rsync_config : Option String
  pub restore_image : Option String
  pub storage : StorageTemplate

pub record PodMonitor : Type 0 where
  pub enabled : Bool
  pub labels : Option StringMap

pub record StarknetRpcSpec : Type 0 where
  pub network : String
  pub restore_archive : ArchiveSnapshot
  pub resources : ResourceRequirements
  pub image : Option String
  pub storage : StorageTemplate
  pub tolerations : List Toleration
  pub layer1_rpc_secret : SecretKeySelector
  pub pod_monitor : Option PodMonitor

pub record StarknetRpcStatus : Type 0 where
  pub conditions : List Condition

pub record StarknetRpc : Type 0 where
  pub api_version : String
  pub kind : String
  pub meta : ObjectMeta
  pub spec : StarknetRpcSpec
  pub status : StarknetRpcStatus

pub record StarknetRpcList : Type 0 where
  pub api_version : String
  pub kind : String
  pub meta : ListMeta
  pub items : List StarknetRpc

-- The status is replaced, and all else stays.
abbrev pub with_conditions : List Condition → StarknetRpc → StarknetRpc
with_conditions cs r = record r { status = record { conditions = cs } }
