-- ===== src/Controller/Manifest/RpcPod.antt =====
-- internal/controller/starknetrpc_pod.go: the pod that runs the node.
use starknet_operators.Prelude.{ℕ, String, Option, none, some, [], ◌∷◌}
use starknet_operators.Prelude.StringMap.{StringMap}
use starknet_operators.Kubernetes.Core.{Pod, Container, ContainerPort, EnvVar, SecretKeySelector}
use starknet_operators.V1alpha1.{StarknetRpc}
use starknet_operators.Controller.Manifest.Names.{get_storage_pvc_name, get_pod_name, owner}

abbrev image_or_default : Option String → String
image_or_default (some image) = image
image_or_default none = "eqlabs/pathfinder:v0.20.0"

unfoldable pub get_pod_image : StarknetRpc → String
get_pod_image rpc = image_or_default rpc.spec.image

abbrev plain : String → String → EnvVar
plain name value = record { name = name; value = value; value_from = none }

abbrev secret : String → SecretKeySelector → EnvVar
secret name key = record { name = name; value = ""; value_from = some key }

abbrev port : String → ℕ → ContainerPort
port name number = record { name = name; container_port = number; protocol = "" }

abbrev pub rpc_container : StarknetRpc → Container
rpc_container cluster = record {
  name = "rpc-pathfinder";
  image = get_pod_image cluster;
  image_pull_policy = "IfNotPresent";
  env =
      plain "RUST_LOG" "info"
      ∷ plain "PATHFINDER_DATA_DIR" "/usr/share/pathfinder/data"
      ∷ plain "PATHFINDER_MONITOR_ADDRESS" "0.0.0.0:9000"
      ∷ secret "PATHFINDER_ETHEREUM_API_URL" cluster.spec.layer1_rpc_secret
      ∷ plain "PATHFINDER_WEBSOCKET_ENABLED" "true"
      ∷ plain "PATHFINDER_HEAD_POLL_INTERVAL_SECONDS" "2"
      ∷ [];
  resources = cluster.spec.resources;
  ports = port "rpc" 9545 ∷ port "monitoring" 9000 ∷ [];
  volume_mounts =
      record { name = "pathfinder-data"; mount_path = "/usr/share/pathfinder/data" } ∷ [];
}

unfoldable pub pod_labels : StarknetRpc → StringMap
pod_labels cluster =
    ("rpc.runelabs.xyz/type", "starknet")
    ∷ ("rpc.runelabs.xyz/name", cluster.meta.name)
    ∷ ("runelabs.xyz/network", cluster.spec.network)
    ∷ []

abbrev user_id : ℕ
user_id = 1000

unfoldable pub get_wanted_pod : StarknetRpc → Pod
unfolding get_pod_name get_pod_image get_storage_pvc_name pod_labels
get_wanted_pod cluster =
    let name_info = get_pod_name cluster in
    record {
      meta = record {
        name = name_info.name;
        namespace = name_info.namespace;
        uid = "";
        labels = some (pod_labels cluster);
        annotations = some [];
        owner_references = owner cluster ∷ [];
      };
      spec = record {
        restart_policy = "";
        containers = rpc_container cluster ∷ [];
        volumes =
            record { name = "pathfinder-data"; claim_name = (get_storage_pvc_name cluster).name }
            ∷ [];
        tolerations = cluster.spec.tolerations;
        security_context = some (record {
          run_as_user = some user_id;
          run_as_group = some user_id;
          fs_group = some user_id;
        });
      };
      status = record { phase = ""; reason = ""; container_statuses = [] };
    }
