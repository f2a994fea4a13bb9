-- ===== src/Policy/Claims.antt =====
-- The calls of a run that delete a claim.
use starknet_operators.Prelude.{◌≡◌, ◌≢◌, ◌∙◌, sym, ap, refl, List, [], ◌∷◌, All}
use starknet_operators.Kubernetes.Meta.{NamespacedName, object_key}
use starknet_operators.Kubernetes.Core.{Pvc}
use starknet_operators.Kubernetes.Client.{Kube}
use starknet_operators.V1alpha1.{StarknetRpc}
use starknet_operators.Pass.{
  of_pod, of_pvc, of_job, of_pod_monitor, Call, create_call, get_call, update_call, delete_call,
  update_status_call, proxy_call, event_call, Entry, begin,
}
use starknet_operators.Controller.Manifest.Names.{get_storage_pvc_name, get_restore_pvc_name}
use starknet_operators.Controller.Manifest.Storage.{get_wanted_restore_pvc}
use starknet_operators.Controller.Manifest.Disjoint.{restore_pvc-ne-storage_pvc}
use starknet_operators.Controller.Reconcile.{reconcile}
use starknet_operators.Policy.{IsPermitted, AreLawful}
use starknet_operators.Policy.Run.{reconcile-Obeys}

-- The call deletes no storage claim, of any resource.
abbrev pub KeepsStorage : Call → Type 0
KeepsStorage (delete_call (of_pvc x) o) =
    (cluster : StarknetRpc) → object_key x.meta ≢ get_storage_pvc_name cluster
KeepsStorage _ = Unit

restore_pvc_key :
    (rpc : StarknetRpc) → object_key (get_wanted_restore_pvc rpc).meta ≡ get_restore_pvc_name rpc
unfolding get_wanted_restore_pvc
restore_pvc_key rpc = refl

module _ (k : Kube) where
  permitted-KeepsStorage :
      (c : Call) (rpc : StarknetRpc) (before : List Entry)
      → IsPermitted k c rpc before
      → KeepsStorage c
  permitted-KeepsStorage (create_call x) rpc before h = tt
  permitted-KeepsStorage (get_call _ _) rpc before h = tt
  permitted-KeepsStorage (update_call x) rpc before h = tt
  permitted-KeepsStorage (delete_call (of_pod x) o) rpc before h = tt
  permitted-KeepsStorage (delete_call (of_pvc x) o) rpc before h = λ cluster e.
      restore_pvc-ne-storage_pvc rpc cluster
        (sym (restore_pvc_key rpc) ∙ sym (ap (λ (y : Pvc). object_key y.meta) h.0) ∙ e)
  permitted-KeepsStorage (delete_call (of_job x) o) rpc before h = tt
  permitted-KeepsStorage (delete_call (of_pod_monitor x) o) rpc before h = tt
  permitted-KeepsStorage (update_status_call r) rpc before h = tt
  permitted-KeepsStorage (proxy_call q) rpc before h = tt
  permitted-KeepsStorage (event_call e) rpc before h = tt

  lawful-KeepsStorage :
      (l : List Entry) → AreLawful k l → All (λ (e : Entry). KeepsStorage e.call) l
  lawful-KeepsStorage [] h = tt
  lawful-KeepsStorage (e ∷ l) h =
      (permitted-KeepsStorage e.call e.rpc l h.0, lawful-KeepsStorage l h.1)

  -- For every server, request and state of the server, no call of a run deletes a claim whose
  -- name and namespace are those of the storage claim of any resource.
  pub reconcile-KeepsStorage :
      (req : NamespacedName) (w : k.World)
      → All (λ (e : Entry). KeepsStorage e.call) (reconcile {k = k} req (begin w)).1.calls
  reconcile-KeepsStorage req w =
      lawful-KeepsStorage (reconcile {k = k} req (begin w)).1.calls
        (reconcile-Obeys {k = k} req (begin w) tt)
