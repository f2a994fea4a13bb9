-- ===== src/Policy/Pod.antt =====
-- The calls of the pod's handler.
use starknet_operators.Prelude.{arith, ◌≡◌, true, [], ◌∷◌, eq_iff}
use starknet_operators.Kubernetes.Client.{Kube}
use starknet_operators.Kubernetes.Core.{Pod}
use starknet_operators.Pass.{Pass, pod_stored}
use starknet_operators.Reconciler.Loop.{reconcile_all}
use starknet_operators.Reconciler.{create_or_reconcile}
use starknet_operators.Controller.Manifest.RpcPod.{get_wanted_pod, get_pod_image}
use starknet_operators.Controller.Restore.{restore_done}
use starknet_operators.Controller.Pod.{
  check_pod, image_reconciler, reconcile_pod, image_is_up_to_date, update_image,
}
use starknet_operators.Policy.{Obeys}

module _ {k : Kube} where
  check_pod-Obeys : (p : Pass k) (pod : Pod) → Obeys p → Obeys (check_pod pod p).1
  unfolding check_pod
  check_pod-Obeys p pod h = ground arith

  create_pod-Obeys :
      (p : Pass k)
      → Obeys p
      → restore_done k p.rpc ≡ true
      → Obeys (create_or_reconcile k.pods (get_wanted_pod p.rpc) (image_reconciler p.rpc ∷ []) p).1
  unfolding create_or_reconcile reconcile_all image_is_up_to_date update_image
  create_pod-Obeys p h d = ground (arith, eq_iff (get_pod_image p.rpc) (get_pod_image p.rpc))

  pub reconcile_pod-Obeys :
      (p : Pass k) → Obeys p → restore_done k p.rpc ≡ true → Obeys (reconcile_pod p).1
  unfolding reconcile_pod reconcile_all
  reconcile_pod-Obeys p h d = ground (arith, eq_iff (get_pod_image p.rpc) (get_pod_image p.rpc))
