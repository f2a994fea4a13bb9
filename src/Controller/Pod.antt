-- ===== src/Controller/Pod.antt =====
-- internal/controller/starknetrpc_pod.go: the pod of the node is created, kept at its image,
-- removed when it is beyond repair, and probed.
pub mod Keeps
pub mod Image
pub mod Recreate
use starknet_operators.Prelude.{
  String, Bool, true, false, ◌&&◌, Option, none, some, List, [], ◌∷◌, ◌==◌, ltb, if◌then◌else◌,
}
use starknet_operators.Prog.{Outcome, ret, panic, pure, ◌>>=◌}
use starknet_operators.Kubernetes.Core.{Pod, Container, ContainerStatus}
use starknet_operators.Kubernetes.Client.{Kube, Answer, ok, err}
use starknet_operators.V1alpha1.{StarknetRpc}
use starknet_operators.Pass.{
  M, Error, api, Reply, done, failed_with, again, or_fail, at_once, current, delete, pod_stored,
}
use starknet_operators.Condition.{set_phases}
use starknet_operators.Condition.Available
use starknet_operators.Reconciler.{Created, create_or_reconcile}
use starknet_operators.Reconciler.Loop.{ObjectReconcilier}
use starknet_operators.Proxy.{first, and_then, is_ready}
use starknet_operators.Controller.Manifest.RpcPod.{get_pod_image, get_wanted_pod}

-- pod.Spec.Containers[0].Image = image
abbrev pub set_image : String → List Container → Outcome (List Container)
set_image image [] = panic
set_image image (c ∷ cs) = ret (record c { image = image } ∷ cs)

-- The two fields of `ImageReconciler`.
unfoldable pub image_is_up_to_date : StarknetRpc → Pod → Outcome Bool
unfolding get_pod_image
image_is_up_to_date rpc pod =
    and_then (first pod.spec.containers) λ c. ret (c.image == get_pod_image rpc)

unfoldable pub update_image : {F : Type 0} → StarknetRpc → Pod → Outcome (Pod × Option (Error F))
unfolding get_pod_image
update_image rpc pod =
    and_then (set_image (get_pod_image rpc) pod.spec.containers)
      λ cs. ret (record pod { spec = record pod.spec { containers = cs } }, none)

abbrev pub image_reconciler : {F : Type 0} → StarknetRpc → ObjectReconcilier F Pod
image_reconciler rpc = record {
  name = "ImageReconciler";
  is_up_to_date = image_is_up_to_date rpc;
  update = update_image rpc;
}

-- The test of the loop on one container.
unfoldable pub is_crash_looping : ContainerStatus → Bool
is_crash_looping cs = elim cs.waiting_reason [
  | none ↦ false
  | some reason ↦ reason == "CrashLoopBackOff" && ltb 5 cs.restart_count
]

unfoldable pub any_crash_looping : List ContainerStatus → Bool
unfolding is_crash_looping
any_crash_looping [] = false
any_crash_looping (cs ∷ rest) = if is_crash_looping cs then true else any_crash_looping rest

unfoldable pub should_pod_get_recreated : Pod → Bool
unfolding any_crash_looping
should_pod_get_recreated pod =
    if pod.status.reason == "Evicted" then true else any_crash_looping pod.status.container_statuses

abbrev after_delete : {F : Type 0} → Answer F (Unit {0}) → Reply F
after_delete (ok _) = again at_once
after_delete (err f) = failed_with (api f)

module _ {k : Kube} where
  -- `if ok, err := proxy.IsReady(…); err == nil && ok { … }`
  unfoldable pub after_probe : Bool → Option (Error k.Fault) → M k (Reply k.Fault)
  unfolding set_phases
  after_probe true none = do
    error ← set_phases (Available.apply k Available.catching_up ∷ [])
    pure (or_fail error done)
  after_probe _ _ = pure done

  unfoldable pub check_pod : Pod → M k (Reply k.Fault)
  unfolding should_pod_get_recreated is_ready delete after_probe
  check_pod pod =
      if should_pod_get_recreated pod
      then (do answer ← delete k.pods pod none; pure (after_delete answer))
      else do probed ← is_ready pod; after_probe probed.ready probed.error

  -- A pod that was just created is announced.
  unfoldable pub announce : Bool → M k (Option (Error k.Fault))
  unfolding set_phases
  announce false = pure none
  announce true = set_phases (Available.apply k Available.creating ∷ [])

  unfoldable pub after_announce : Pod → Option (Error k.Fault) → M k (Reply k.Fault)
  unfolding check_pod
  after_announce pod (some e) = pure (failed_with e)
  after_announce pod none = check_pod pod

  unfoldable pub after_create : Created k.Fault Pod → M k (Reply k.Fault)
  unfolding after_announce announce
  after_create c = elim c.error [
    | some e ↦ pure (failed_with e)
    | none ↦ do error ← announce c.created; after_announce c.object error
  ]

  unfoldable pub reconcile_pod : M k (Reply k.Fault)
  unfolding after_create create_or_reconcile image_is_up_to_date update_image
  reconcile_pod = do
    cluster ← current
    c ← create_or_reconcile k.pods (get_wanted_pod cluster) (image_reconciler cluster ∷ [])
    after_create c
