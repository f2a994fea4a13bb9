-- ===== src/Tests/Data.antt =====
-- A resource, its objects and some states of the server.
use starknet_operators.Prelude.{true, false, none, some, List, [], ◌∷◌}
use starknet_operators.Prelude.StringMap.{StringMap}
use starknet_operators.Kubernetes.Meta.{NamespacedName, Condition}
use starknet_operators.V1alpha1.{StarknetRpc, PodMonitor}
use starknet_operators.Pass.{blank_rpc, Pass}
use starknet_operators.Condition.Restore
use starknet_operators.Controller.Manifest.Storage.{get_wanted_pvc, get_wanted_restore_pvc}
use starknet_operators.Controller.Manifest.RpcPod.{get_wanted_pod}
use starknet_operators.Controller.Manifest.Monitor.{get_wanted_pod_monitor}
use starknet_operators.Tests.Server.{World, server}

abbrev pub request : NamespacedName
request = record { name = "alpha"; namespace = "nodes" }

abbrev pub custom_labels : StringMap
custom_labels = ("team", "infra") ∷ ("runelabs.xyz/network", "private") ∷ []

abbrev pub monitored : PodMonitor
monitored = record { enabled = true; labels = some custom_labels }

-- A resource that wants its archive restored and its pod monitored; it has these conditions.
abbrev pub node : List Condition → StarknetRpc
node cs = record blank_rpc {
  api_version = "pathfinder.runelabs.xyz/v1alpha1";
  kind = "StarknetRPC";
  meta = record {
    name = "alpha";
    namespace = "nodes";
    uid = "7";
    labels = none;
    annotations = none;
    owner_references = [];
  };
  spec = record blank_rpc.spec {
    network = "sepolia";
    storage = record { size = "100Gi"; class = "fast" };
    pod_monitor = some monitored;
  };
  status = record { conditions = cs };
}

-- The same, with the restore switched off.
abbrev pub bare_node : List Condition → StarknetRpc
bare_node cs =
    let n = node cs in
    record n {
      spec = record n.spec {
        restore_archive = record n.spec.restore_archive { enable = some false };
      };
    }

unfoldable pub restored : List Condition
unfolding Restore.as_condition
restored = Restore.as_condition Restore.success ∷ []

unfoldable pub unrestored : List Condition
unfolding Restore.as_condition
unrestored = Restore.as_condition Restore.pending ∷ []

-- A server with one resource and nothing else.
abbrev pub fresh : StarknetRpc → World
fresh rpc = record {
  pods = [];
  pvcs = [];
  jobs = [];
  pod_monitors = [];
  rpcs = rpc ∷ [];
  up = true;
  probes = [];
  events = [];
}

-- Both claims are bound.
unfoldable pub with_claims : StarknetRpc → World
unfolding get_wanted_pvc get_wanted_restore_pvc
with_claims rpc = record (fresh rpc) {
  pvcs =
      record (get_wanted_pvc rpc) { phase = "Bound" }
      ∷ record (get_wanted_restore_pvc rpc) { phase = "Bound" }
      ∷ [];
}

-- The pod runs, and the PodMonitor is there.
unfoldable pub running : StarknetRpc → World
unfolding get_wanted_pvc get_wanted_pod get_wanted_pod_monitor
running rpc =
    let pod = get_wanted_pod rpc in
    record (fresh rpc) {
      pvcs = record (get_wanted_pvc rpc) { phase = "Bound" } ∷ [];
      pods = record pod { status = record pod.status { phase = "Running" } } ∷ [];
      pod_monitors = get_wanted_pod_monitor rpc ∷ [];
    }

-- A run that holds a resource.
abbrev pub holding : StarknetRpc → World → Pass server
holding rpc w = record { world = w; rpc = rpc; calls = [] }
