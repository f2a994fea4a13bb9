-- ===== src/Total/RpcPod.antt =====
-- When the pod's handler returns.
use starknet_operators.Prelude.{arith, [], ◌∷◌}
use starknet_operators.Prog.{Returns, >>=-Holds}
use starknet_operators.Kubernetes.Client.{Kube}
use starknet_operators.V1alpha1.{StarknetRpc}
use starknet_operators.Kubernetes.Core.{Pod}
use starknet_operators.Pass.{Pass, pod_stored}
use starknet_operators.Reconciler.{Created, create_or_reconcile}
use starknet_operators.Reconciler.Loop.{reconcile_all}
use starknet_operators.Controller.Manifest.RpcPod.{get_wanted_pod}
use starknet_operators.Controller.Pod.{
  check_pod, after_create, reconcile_pod, image_reconciler, image_is_up_to_date, update_image,
}
use starknet_operators.Proxy.{probe}
use starknet_operators.Total.{IsSound, HasPort, Sends}
use starknet_operators.Total.Create.{IsFine, IsUsable, create_or_reconcile-Returns}

pub image_loop-Returns :
    (F : Type 0) (rpc : StarknetRpc) (pod : Pod)
    → HasPort pod
    → Returns (IsFine HasPort) (reconcile_all {F = F} (image_reconciler rpc ∷ []) pod)
unfolding reconcile_all image_is_up_to_date update_image
image_loop-Returns F rpc pod h = ground arith

module _ {k : Kube} where
  check_pod-Returns :
      (pod : Pod) (p : Pass k) → HasPort pod → Returns IsSound (check_pod {k = k} pod p).0
  unfolding check_pod probe
  check_pod-Returns pod p h = ground arith

  after_create-Returns :
      (c : Created k.Fault Pod) (p : Pass k)
      → IsUsable HasPort c
      → Returns IsSound (after_create {k = k} c p).0
  unfolding after_create probe
  after_create-Returns c p h = ground arith

  pub reconcile_pod-Returns :
      Sends HasPort k.pods → (p : Pass k) → Returns IsSound (reconcile_pod {k = k} p).0
  unfolding reconcile_pod
  reconcile_pod-Returns sends p =
      >>=-Holds ⊥ (IsUsable HasPort) IsSound
        (create_or_reconcile {k = k} k.pods (get_wanted_pod p.rpc) (image_reconciler p.rpc ∷ []))
        after_create p
        (create_or_reconcile-Returns HasPort k.pods sends _ (image_loop-Returns k.Fault p.rpc) p
          (get_wanted_pod p.rpc))
        after_create-Returns
