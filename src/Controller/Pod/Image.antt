-- ===== src/Controller/Pod/Image.antt =====
-- The reconciler of the pod's image (ImageReconciler of internal/controller/starknetrpc_pod.go).
use starknet_operators.Prelude.{arith, sym, ap, true, Option, ◌≡◌, List, [], ◌∷◌, none, eq_iff}
use starknet_operators.Prog.{ret}
use starknet_operators.Kubernetes.Core.{Pod, Container}
use starknet_operators.V1alpha1.{StarknetRpc}
use starknet_operators.Pass.{Error}
use starknet_operators.Proxy.{and_then}
use starknet_operators.Reconciler.Coherence.{AreCoherent, Establishes}
use starknet_operators.Controller.Manifest.RpcPod.{get_pod_image}
use starknet_operators.Controller.Pod.{
  set_image, image_is_up_to_date, update_image, image_reconciler,
}

update_image-Establishes :
    {F : Type 0} (rpc : StarknetRpc) → Establishes (image_reconciler {F = F} rpc)
unfolding image_is_up_to_date update_image
update_image-Establishes rpc x x' e = ground (arith, eq_iff (get_pod_image rpc) (get_pod_image rpc))

pub image-AreCoherent :
    {F : Type 0} (rpc : StarknetRpc) → AreCoherent {F = F} [] (image_reconciler rpc ∷ [])
image-AreCoherent rpc = (update_image-Establishes rpc, tt, tt)

abbrev pub with_containers : Pod → List Container → Pod
with_containers pod cs = record pod { spec = record pod.spec { containers = cs } }

update_image_lem :
    {F : Type 0} (rpc : StarknetRpc) (pod : Pod) (c : Container) (cs : List Container)
    → pod.spec.containers ≡ c ∷ cs
    → update_image {F = F} rpc pod
      ≡ ret (with_containers pod (record c { image = get_pod_image rpc } ∷ cs), none)
unfolding update_image
update_image_lem {F} rpc pod c cs first =
    ap
      (λ l.
        and_then {B = Pod × Option (Error F)} (set_image (get_pod_image rpc) l)
          (λ l'. ret (with_containers pod l', none)))
      first

-- If the pod has a first container and its update returns a pod, then that pod is up to date, and
-- it is the old one with the wanted image in the first container.
pub update_image-accepted :
    {F : Type 0} (rpc : StarknetRpc) (pod after : Pod) (c : Container) (cs : List Container)
    → pod.spec.containers ≡ c ∷ cs
    → update_image {F = F} rpc pod ≡ ret (after, none)
    → (image_is_up_to_date rpc after ≡ ret true)
      × (after ≡ with_containers pod (record c { image = get_pod_image rpc } ∷ cs))
update_image-accepted {F} rpc pod after c cs first updated =
    let wanted = with_containers pod (record c { image = get_pod_image rpc } ∷ cs) in
    let same : wanted ≡ after = cc (update_image_lem {F = F} rpc pod c cs first, updated) in
    (update_image-Establishes {F = F} rpc pod after updated, sym same)
