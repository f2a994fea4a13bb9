-- ===== src/Controller/Manifest/Names.antt =====
-- internal/controller: the names of the objects of a resource, and the reference to their owner.
use starknet_operators.Prelude.{String, ◌<>◌, true, some}
use starknet_operators.Kubernetes.Meta.{NamespacedName, OwnerReference}
use starknet_operators.V1alpha1.{StarknetRpc}

-- fmt.Sprintf("%s<suffix>", cluster.Name), in the namespace of the resource
abbrev pub named : String → StarknetRpc → NamespacedName
named suffix cluster = record {
  name = cluster.meta.name <> suffix;
  namespace = cluster.meta.namespace;
}

unfoldable pub get_storage_pvc_name : StarknetRpc → NamespacedName
get_storage_pvc_name = named "-storage"

unfoldable pub get_restore_pvc_name : StarknetRpc → NamespacedName
get_restore_pvc_name = named "-archive-restore"

unfoldable pub get_restore_job_name : StarknetRpc → NamespacedName
get_restore_job_name = named "-archive-restore-job"

unfoldable pub get_pod_name : StarknetRpc → NamespacedName
get_pod_name = named "-rpc"

unfoldable pub get_pod_monitor_name : StarknetRpc → NamespacedName
get_pod_monitor_name = named "-podmonitor"

-- The owner reference of the claims and of the pod.
abbrev pub owner : StarknetRpc → OwnerReference
owner cluster = record {
  api_version = cluster.api_version;
  kind = cluster.kind;
  name = cluster.meta.name;
  uid = cluster.meta.uid;
  controller = some true;
  block_owner_deletion = some true;
}
