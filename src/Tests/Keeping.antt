-- ===== src/Tests/Keeping.antt =====
-- The server of the tests holds a restored resource with its claim, over several runs.
use starknet_operators.Prelude.{
  arith, ◌≡◌, refl, ◌∙◌, Bool, true, false, ◌&&◌, ◌==◌, eq_iff, ◌<>◌, Option, none, some, List, [],
  ◌∷◌,
}
use starknet_operators.Kubernetes.Meta.{NamespacedName, DeletionPropagation, object_key}
use starknet_operators.Kubernetes.Core.{Pvc}
use starknet_operators.V1alpha1.{StarknetRpc}
use starknet_operators.Pass.{
  of_pod, of_pvc, of_job, of_pod_monitor, pod_kind, pvc_kind, job_kind, pod_monitor_kind, rpc_kind,
  Call, create_call, get_call, update_call, delete_call, update_status_call, proxy_call, event_call,
  begin, blank_rpc,
}
use starknet_operators.Controller.Manifest.Names.{get_storage_pvc_name}
use starknet_operators.Controller.Manifest.Storage.{get_wanted_pvc}
use starknet_operators.Controller.Restore.{restore_done}
use starknet_operators.Controller.Reconcile.{reconcile}
use starknet_operators.Policy.Claims.{KeepsStorage}
use starknet_operators.History.Steps.{here, later, run}
use starknet_operators.History.Replay.{perform}
use starknet_operators.History.Remains.{sends_undone, resets}
use starknet_operators.History.Kept.{Holding, IsHolding, IsRefused, IsKept, Reach-resets}
use starknet_operators.Tests.Server.{World, server, conditions, status, find, replace, remove}
use starknet_operators.Tests.Histories.{done_of, held, leaves_lem}
use starknet_operators.Tests.Data.{request, node, restored, running}

abbrev is_given : {A : Type 0} → Option A → Bool
is_given none = false
is_given (some _) = true

abbrev storage_key : NamespacedName → NamespacedName
storage_key n = record { name = n.name <> "-storage"; namespace = n.namespace }

abbrev kept_view : NamespacedName → Holding server
kept_view n = record {
  done = (held n).done;
  claimed = λ w. is_given (find (λ x. x.meta) (storage_key n) w.pvcs);
}

find-key :
    (n : NamespacedName) (l : List StarknetRpc) (r : StarknetRpc)
    → find (λ x. x.meta) n l ≡ some r
    → (r.meta.name ≡ n.name) × (r.meta.namespace ≡ n.namespace)
find-key n [] r e = ground arith
find-key n (x ∷ l) r e =
    ground (arith, eq_iff x.meta.name n.name, eq_iff x.meta.namespace n.namespace, find-key n l r)

done-replace_done :
    (n : NamespacedName) (r : StarknetRpc) (l : List StarknetRpc)
    → restore_done server r ≡ true
    → done_of (find (λ x. x.meta) n l) ≡ true
    → done_of (find (λ x. x.meta) n (replace (λ x. x.meta) r l)) ≡ true
done-replace_done n r [] d e = ground arith
done-replace_done n r (x ∷ l) d e = ground (
  arith,
  eq_iff x.meta.name r.meta.name,
  eq_iff x.meta.name n.name,
  eq_iff r.meta.name n.name,
  eq_iff x.meta.namespace r.meta.namespace,
  eq_iff x.meta.namespace n.namespace,
  eq_iff r.meta.namespace n.namespace,
  done-replace_done n r l d,
)

keeps_lem :
    (n : NamespacedName) (c : Call) (w : World)
    → sends_undone server c ≡ false
    → (held n).done w ≡ true
    → (held n).done (perform server c w) ≡ true
keeps_lem n (update_status_call r) w e d = ground (arith, done-replace_done n r w.rpcs)
keeps_lem n (create_call x) w e d = leaves_lem n (create_call x) w refl ∙ d
keeps_lem n (get_call i m) w e d = leaves_lem n (get_call i m) w refl ∙ d
keeps_lem n (update_call x) w e d = leaves_lem n (update_call x) w refl ∙ d
keeps_lem n (delete_call x o) w e d = leaves_lem n (delete_call x o) w refl ∙ d
keeps_lem n (proxy_call q) w e d = d
keeps_lem n (event_call q) w e d = d

given-replace :
    (m : NamespacedName) (x : Pvc) (l : List Pvc)
    → is_given (find (λ x. x.meta) m l) ≡ true
    → is_given (find (λ x. x.meta) m (replace (λ x. x.meta) x l)) ≡ true
given-replace m x [] e = ground arith
given-replace m x (y ∷ l) e = ground (
  arith,
  eq_iff y.meta.name x.meta.name,
  eq_iff y.meta.name m.name,
  eq_iff x.meta.name m.name,
  eq_iff y.meta.namespace x.meta.namespace,
  eq_iff y.meta.namespace m.namespace,
  eq_iff x.meta.namespace m.namespace,
  given-replace m x l,
)

given-remove :
    (m k : NamespacedName) (l : List Pvc)
    → (k.name == m.name && k.namespace == m.namespace) ≡ false
    → is_given (find (λ x. x.meta) m l) ≡ true
    → is_given (find (λ x. x.meta) m (remove (λ x. x.meta) k l)) ≡ true
given-remove m k [] apart e = ground arith
given-remove m k (y ∷ l) apart e = ground (
  arith,
  eq_iff y.meta.name k.name,
  eq_iff y.meta.name m.name,
  eq_iff k.name m.name,
  eq_iff y.meta.namespace k.namespace,
  eq_iff y.meta.namespace m.namespace,
  eq_iff k.namespace m.namespace,
  given-remove m k l apart,
)

-- Some resource has this name, so the claim that is deleted is not its storage claim.
apart_lem :
    (n : NamespacedName) (x : Pvc) (o : Option DeletionPropagation)
    → KeepsStorage (delete_call (of_pvc x) o)
    → (x.meta.name == n.name <> "-storage" && x.meta.namespace == n.namespace) ≡ false
unfolding get_storage_pvc_name
apart_lem n x o spared =
    let cluster = record blank_rpc {
      meta = record blank_rpc.meta { name = n.name; namespace = n.namespace };
    } in
    ground (
      arith,
      eq_iff x.meta.name (n.name <> "-storage"),
      eq_iff x.meta.namespace n.namespace,
      spared cluster,
    )

stays_lem :
    (n : NamespacedName) (c : Call) (w : World)
    → KeepsStorage c
    → (kept_view n).claimed w ≡ true
    → (kept_view n).claimed (perform server c w) ≡ true
stays_lem n (create_call (of_pod x)) w spared e = ground arith
stays_lem n (create_call (of_pvc x)) w spared e = ground arith
stays_lem n (create_call (of_job x)) w spared e = ground arith
stays_lem n (create_call (of_pod_monitor x)) w spared e = ground arith
stays_lem n (get_call pod_kind m) w spared e = e
stays_lem n (get_call pvc_kind m) w spared e = e
stays_lem n (get_call job_kind m) w spared e = e
stays_lem n (get_call pod_monitor_kind m) w spared e = e
stays_lem n (get_call rpc_kind m) w spared e = e
stays_lem n (update_call (of_pod x)) w spared e = ground arith
stays_lem n (update_call (of_pvc x)) w spared e =
    ground (arith, given-replace (storage_key n) x w.pvcs)
stays_lem n (update_call (of_job x)) w spared e = ground arith
stays_lem n (update_call (of_pod_monitor x)) w spared e = ground arith
stays_lem n (delete_call (of_pod x) o) w spared e = ground arith
stays_lem n (delete_call (of_pvc x) o) w spared e =
    ground
      (arith, given-remove (storage_key n) (object_key x.meta) w.pvcs (apart_lem n x o spared) e)
stays_lem n (delete_call (of_job x) o) w spared e = ground arith
stays_lem n (delete_call (of_pod_monitor x) o) w spared e = ground arith
stays_lem n (update_status_call r) w spared e = ground arith
stays_lem n (proxy_call q) w spared e = e
stays_lem n (event_call q) w spared e = e

refuses_lem :
    (n : NamespacedName) (r : StarknetRpc) (w : World)
    → r.meta.name ≡ n.name
    → r.meta.namespace ≡ n.namespace
    → (kept_view n).claimed w ≡ true
    → IsRefused (server.pvcs.create (get_wanted_pvc r) w).0
unfolding get_wanted_pvc
refuses_lem n r w same_name same_namespace e = rw (same_name, same_namespace) (ground arith)

kept_view-IsHolding : (n : NamespacedName) → IsHolding server n (kept_view n)
kept_view-IsHolding n = record {
  empty = λ t. refl;
  sends = λ w r e. ground (arith, find-key n w.rpcs r);
  keeps = keeps_lem n;
  refuses = refuses_lem n;
  stays = stays_lem n;
}

unfoldable kept_world : World
unfolding running restored
kept_world = running (node restored)

Reach-resets_example :
    IsKept (kept_view request) (reconcile {k = server} request (begin kept_world)).1.world
    × (resets server
          (reconcile {k = server} request
            (begin (reconcile {k = server} request (begin kept_world)).1.world)).1.calls
        ≡ false)
unfolding kept_world
Reach-resets_example =
    Reach-resets request (kept_view request) (kept_view-IsHolding request) conditions status
      kept_world (reconcile {k = server} request (begin kept_world)).1.world
      (later kept_world kept_world _ (here kept_world) (run kept_world)) (refl, refl)
