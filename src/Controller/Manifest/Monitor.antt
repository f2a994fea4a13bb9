-- ===== src/Controller/Manifest/Monitor.antt =====
-- internal/controller/starknetrpc_podmonitor.go: the PodMonitor of the node's pod.
use starknet_operators.Prelude.{Option, none, some, [], ◌∷◌, true}
use starknet_operators.Prelude.StringMap.{StringMap, copy}
use starknet_operators.Kubernetes.Monitoring.{PodMonitorSpec, PodMonitorObject}
use starknet_operators.V1alpha1.{StarknetRpc, PodMonitor}
use starknet_operators.Controller.Manifest.Names.{get_pod_monitor_name}

unfoldable pub get_pod_monitor_spec : StarknetRpc → PodMonitorSpec
get_pod_monitor_spec cluster = record {
  pod_metrics_endpoints = record { port = some "monitoring"; path = "/metrics"; others = [] } ∷ [];
  selector = record {
    match_labels = ("rpc.runelabs.xyz/name", cluster.meta.name) ∷ [];
    match_expressions = [];
  };
  match_names = cluster.meta.namespace ∷ [];
  pod_target_labels = "runelabs.xyz/network" ∷ "rpc.runelabs.xyz/name" ∷ [];
}

-- The labels that the operator sets itself.
unfoldable pub operator_labels : StarknetRpc → StringMap
operator_labels cluster =
    ("rpc.runelabs.xyz/type", "starknet")
    ∷ ("rpc.runelabs.xyz/name", cluster.meta.name)
    ∷ ("runelabs.xyz/network", cluster.spec.network)
    ∷ ("app.kubernetes.io/name", "starknet-rpc")
    ∷ ("app.kubernetes.io/instance", cluster.meta.name)
    ∷ ("app.kubernetes.io/managed-by", "starknet-operator")
    ∷ []

abbrev copy_labels : StringMap → Option StringMap → StringMap
copy_labels labels none = labels
copy_labels labels (some custom) = copy labels custom

abbrev pub copy_custom : StringMap → Option PodMonitor → StringMap
copy_custom labels none = labels
copy_custom labels (some monitor) = copy_labels labels monitor.labels

unfoldable pub get_pod_monitor_labels : StarknetRpc → StringMap
unfolding operator_labels copy
get_pod_monitor_labels cluster = copy_custom (operator_labels cluster) cluster.spec.pod_monitor

unfoldable pub get_wanted_pod_monitor : StarknetRpc → PodMonitorObject
unfolding get_pod_monitor_name get_pod_monitor_labels get_pod_monitor_spec
get_wanted_pod_monitor cluster =
    let name_info = get_pod_monitor_name cluster in
    record {
      meta = record {
        name = name_info.name;
        namespace = name_info.namespace;
        uid = "";
        labels = some (get_pod_monitor_labels cluster);
        annotations = some [];
        owner_references =
            record {
              api_version = "pathfinder.runelabs.xyz/v1alpha1";
              kind = "StarknetRPC";
              name = cluster.meta.name;
              uid = cluster.meta.uid;
              controller = some true;
              block_owner_deletion = some true;
            }
            ∷ [];
      };
      spec = get_pod_monitor_spec cluster;
    }
