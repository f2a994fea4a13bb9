-- ===== src/Phases/Stays.antt =====
-- What a run keeps of the resource once the restore is done.
use starknet_operators.Prelude.{arith, ◌≡◌, refl, true, none, List, [], ◌∷◌}
use starknet_operators.Prog.{>>=-keeps}
use starknet_operators.Kubernetes.Core.{Pod}
use starknet_operators.Kubernetes.Client.{Kube, Resource, err, HasConditions, KeepsStatus}
use starknet_operators.V1alpha1.{StarknetRpcSpec}
use starknet_operators.Pass.{Pass, Stored, pod_stored, pod_monitor_stored, delete}
use starknet_operators.Condition.{set_phases}
use starknet_operators.Condition.Available
use starknet_operators.Proxy.{is_ready}
use starknet_operators.Reconciler.{create_or_reconcile}
use starknet_operators.Reconciler.Loop.{ObjectReconcilier}
use starknet_operators.Controller.Manifest.Storage.{get_wanted_pvc}
use starknet_operators.Controller.Manifest.RpcPod.{get_wanted_pod}
use starknet_operators.Controller.Pvc.{reconcile_pvc}
use starknet_operators.Controller.Restore.{restore_done, reconcile_archive_restore}
use starknet_operators.Controller.Pod.{reconcile_pod, image_reconciler}
use starknet_operators.Controller.Pod.Keeps.{reconcile_pod-keeps}
use starknet_operators.Controller.PodMonitor.{reconcile_pod_monitor}
use starknet_operators.Controller.Reconcile.{proceed, restore_stage, pvc_stage}
use starknet_operators.Controller.Reconcile.Keeps.{proceed-keeps, restore_stage-keeps}

module _ {k : Kube} (conditions : HasConditions k) (status : KeepsStatus k)
    (spec : StarknetRpcSpec) where
  -- The restore is done, and the specification is this one.
  abbrev IsRestored : Pass k → Type 0
  IsRestored p = (restore_done k p.rpc ≡ true) × (p.rpc.spec ≡ spec)

  set_available-keeps :
      (s : Available.StarknetRpcAvailableStatus) (p : Pass k)
      → IsRestored p
      → IsRestored (set_phases {k = k} (Available.apply k s ∷ []) p).1
  unfolding set_phases Available.apply
  set_available-keeps s p h = ground (
    arith,
    conditions.is_true-set p.rpc.status.conditions (Available.as_condition s) "Restore",
    status.echo (Available.apply k s p.rpc) p.world,
  )

  create_or_reconcile-rpc :
      {T : Type 0} ⦃s : Stored T⦄ (r : Resource k.World k.Fault T) (x : T)
      (rs : List (ObjectReconcilier k.Fault T)) (p : Pass k)
      → (create_or_reconcile {k = k} r x rs p).1.rpc ≡ p.rpc
  unfolding create_or_reconcile
  create_or_reconcile-rpc r x rs p = ground arith

  is_ready-keeps : (pod : Pod) (p : Pass k) → IsRestored p → IsRestored (is_ready {k = k} pod p).1
  unfolding is_ready
  is_ready-keeps pod p h = ground arith

  delete-keeps :
      (pod : Pod) (p : Pass k) → IsRestored p → IsRestored (delete {k = k} k.pods pod none p).1
  unfolding delete
  delete-keeps pod p h = h

  pod-keeps : (p : Pass k) → IsRestored p → IsRestored (reconcile_pod {k = k} p).1
  pod-keeps =
      reconcile_pod-keeps IsRestored set_available-keeps
        (λ p h.
          rw (create_or_reconcile-rpc k.pods (get_wanted_pod p.rpc) (image_reconciler p.rpc ∷ []) p)
            h)
        is_ready-keeps delete-keeps

  reconcile_pod_monitor-keeps :
      (p : Pass k) → IsRestored p → IsRestored (reconcile_pod_monitor {k = k} p).1
  unfolding reconcile_pod_monitor
  reconcile_pod_monitor-keeps p h = ground arith

  reconcile_archive_restore-keeps :
      (p : Pass k) → IsRestored p → IsRestored (reconcile_archive_restore {k = k} p).1
  unfolding reconcile_archive_restore
  reconcile_archive_restore-keeps p h = ground arith

  rest-keeps : (p : Pass k) → IsRestored p → IsRestored (restore_stage {k = k} p).1
  rest-keeps =
      restore_stage-keeps IsRestored reconcile_archive_restore-keeps (λ p h _. pod-keeps p h)
        reconcile_pod_monitor-keeps

module _ {k : Kube} (conditions : HasConditions k) (status : KeepsStatus k) where
  reconcile_pvc-rpc :
      (p : Pass k) (f : k.Fault)
      → (k.pvcs.create (get_wanted_pvc p.rpc) p.world).0 ≡ err f
      → (reconcile_pvc {k = k} p).1.rpc ≡ p.rpc
  unfolding reconcile_pvc
  reconcile_pvc-rpc p f refused = ground arith

  -- If the conditions and the status behave as documented, the restore is done, and the server
  -- answers the creation of the storage claim with an error, then after the stages from the claim
  -- on the restore is still done in the copy of the run, and the specification is the one it had.
  pub restored-stays :
      (p : Pass k) (f : k.Fault)
      → restore_done k p.rpc ≡ true
      → (k.pvcs.create (get_wanted_pvc p.rpc) p.world).0 ≡ err f
      → (restore_done k (pvc_stage {k = k} p).1.rpc ≡ true)
        × ((pvc_stage {k = k} p).1.rpc.spec ≡ p.rpc.spec)
  unfolding pvc_stage
  restored-stays p f restored refused =
      let spec = p.rpc.spec in
      >>=-keeps {P = IsRestored conditions status spec} reconcile_pvc (proceed restore_stage) p
        (rw (reconcile_pvc-rpc p f refused) (restored, refl))
        (proceed-keeps (IsRestored conditions status spec) restore_stage
          (rest-keeps conditions status spec))
