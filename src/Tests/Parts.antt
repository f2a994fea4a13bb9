-- ===== src/Tests/Parts.antt =====
-- The theorems at work on small inputs: reconcilers, pods and probes.
use starknet_operators.Prelude.{◌≡◌, ◌↔◌, ◌⊎◌, refl, true, none, some, [], ◌∷◌, Any, arith, eq_iff}
use starknet_operators.Prog.{ret, Returns}
use starknet_operators.Kubernetes.Meta.{object_key}
use starknet_operators.Kubernetes.Core.{Pod, Container}
use starknet_operators.Pass.{pod_stored}
use starknet_operators.Controller.Manifest.Names.{get_pod_name}
use starknet_operators.Controller.Manifest.RpcPod.{rpc_container, get_wanted_pod}
use starknet_operators.Controller.Pod.{should_pod_get_recreated, image_reconciler}
use starknet_operators.Controller.Pod.Image.{with_containers, image-AreCoherent}
use starknet_operators.Controller.Pod.Recreate.{IsCrashLooping, should_pod_get_recreated_iff}
use starknet_operators.Proxy.{probe, is_ready}
use starknet_operators.Kubernetes.Client.{ok}
use starknet_operators.Proxy.Ready.{is_ready_iff}
use starknet_operators.Proxy.Port.{probe-port_zero}
use starknet_operators.Reconciler.{create_or_reconcile}
use starknet_operators.Reconciler.Coherence.{changed-stale}
use starknet_operators.Policy.{Obeys}
use starknet_operators.Policy.Create.{create_or_reconcile-Obeys}
use starknet_operators.Total.{HasPort}
use starknet_operators.Total.RpcPod.{image_loop-Returns}
use starknet_operators.Total.Create.{IsUsable, create_or_reconcile-Returns}
use starknet_operators.Tests.Server.{Fault, server, pods-Sends}
use starknet_operators.Tests.Data.{node, fresh, restored, running, holding}

-- A container with an old image, and with the one that the node wants.
abbrev old_container : Container
old_container = record {
  name = "rpc-pathfinder";
  image = "eqlabs/pathfinder:v0.19.0";
  image_pull_policy = "";
  env = [];
  resources = (node []).spec.resources;
  ports = [];
  volume_mounts = [];
}

-- A pod that crashes again and again.
abbrev old_pod : Pod
old_pod = record {
  meta = (node []).meta;
  spec = record {
    restart_policy = "";
    containers = old_container ∷ [];
    volumes = [];
    tolerations = [];
    security_context = none;
  };
  status = record {
    phase = "Running";
    reason = "";
    container_statuses =
        record { restart_count = 6; waiting_reason = some "CrashLoopBackOff" } ∷ [];
  };
}

abbrev updated_pod : Pod
updated_pod =
    with_containers old_pod (record old_container { image = "eqlabs/pathfinder:v0.20.0" } ∷ [])

unfoldable new_pod : Pod
unfolding get_wanted_pod
new_pod = get_wanted_pod (node [])

should_pod_get_recreated_iff_example :
    (should_pod_get_recreated old_pod ≡ true)
    ↔ ((old_pod.status.reason ≡ "Evicted") ⊎ Any IsCrashLooping old_pod.status.container_statuses)
should_pod_get_recreated_iff_example = should_pod_get_recreated_iff old_pod

probe-port_zero_example :
    probe new_pod "/ready"
    ≡ ret (record { scheme = "http"; pod = object_key new_pod.meta; port = "0"; path = "/ready" })
unfolding new_pod get_wanted_pod get_pod_name
probe-port_zero_example =
    probe-port_zero new_pod "/ready" (rpc_container (node [])) []
      (record { name = "rpc"; container_port = 9545; protocol = "" })
      (record { name = "monitoring"; container_port = 9000; protocol = "" } ∷ []) refl refl
      (
        (λ e. ground (arith, eq_iff "rpc" "management")),
        ((λ e. ground (arith, eq_iff "monitoring" "management")), tt),
      )

-- The pod of the node, running.
unfoldable running_pod : Pod
unfolding get_wanted_pod
running_pod =
    let pod = get_wanted_pod (node restored) in
    record pod { status = record pod.status { phase = "Running" } }

create_or_reconcile-Returns_example :
    Returns
      (IsUsable HasPort)
      (create_or_reconcile {k = server} server.pods
        (get_wanted_pod (node []))
        (image_reconciler (node []) ∷ [])
        (holding (node []) (running (node [])))).0
create_or_reconcile-Returns_example =
    create_or_reconcile-Returns {k = server} HasPort server.pods pods-Sends
      (image_reconciler (node []) ∷ []) (image_loop-Returns Fault (node []))
      (holding (node []) (running (node []))) (get_wanted_pod (node []))

create_or_reconcile-Obeys_example :
    Obeys
      (create_or_reconcile {k = server} server.pods
        (get_wanted_pod (node restored))
        (image_reconciler (node restored) ∷ [])
        (holding (node restored) (running (node restored)))).1
unfolding restored
create_or_reconcile-Obeys_example =
    create_or_reconcile-Obeys {k = server} server.pods (image_reconciler (node restored) ∷ [])
      (image-AreCoherent (node restored)) (holding (node restored) (running (node restored)))
      (λ y z e a. (changed-stale (image_reconciler (node restored)) y z e, a.0))
      (get_wanted_pod (node restored)) (refl, refl) tt

is_ready_iff_example : (true ≡ true) ↔ (
    (running_pod.status.phase ≡ "Running")
    × ((server.proxy_get
          (record {
            scheme = "http";
            pod = object_key running_pod.meta;
            port = "0";
            path = "/ready";
          })
          (fresh (node []))).0
        ≡ ok tt))
unfolding running_pod get_wanted_pod probe is_ready
is_ready_iff_example =
    is_ready_iff {k = server} running_pod (holding (node []) (fresh (node [])))
      (record { scheme = "http"; pod = object_key running_pod.meta; port = "0"; path = "/ready" })
      (record { ready = true; error = none }) refl refl
