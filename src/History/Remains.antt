-- ===== src/History/Remains.antt =====
-- A restore that is done stays done, as long as the storage claim is there.
use starknet_operators.Prelude.{arith, ◌≡◌, Bool, true, false, not, ◌||◌, List, [], ◌∷◌, none}
use starknet_operators.Prog.{>>=-keeps}
use starknet_operators.Kubernetes.Core.{Pod}
use starknet_operators.Kubernetes.Client.{Kube, err, HasConditions, KeepsStatus}
use starknet_operators.Pass.{
  Call, create_call, update_status_call, Entry, Pass, of_job, pod_stored, pod_monitor_stored,
  delete,
}
use starknet_operators.Condition.{set_phases}
use starknet_operators.Condition.Available
use starknet_operators.Proxy.{is_ready}
use starknet_operators.Reconciler.{create_or_reconcile}
use starknet_operators.Reconciler.Loop.{ObjectReconcilier}
use starknet_operators.Controller.Manifest.Storage.{get_wanted_pvc}
use starknet_operators.Controller.Manifest.RpcPod.{get_wanted_pod}
use starknet_operators.Controller.Pvc.{reconcile_pvc}
use starknet_operators.Controller.Restore.{restore_done, reconcile_archive_restore}
use starknet_operators.Controller.Pod.{reconcile_pod, image_reconciler}
use starknet_operators.Controller.Pod.Keeps.{reconcile_pod-keeps}
use starknet_operators.Controller.PodMonitor.{reconcile_pod_monitor}
use starknet_operators.Controller.Reconcile.{proceed, restore_stage, pvc_stage}
use starknet_operators.Controller.Reconcile.Keeps.{proceed-keeps, restore_stage-keeps}

abbrev pub sends_undone : Kube → Call → Bool
sends_undone k (update_status_call r) = not (restore_done k r)
sends_undone k _ = false

-- A call that starts a restore again: a job is created, or a status says that it is not done.
abbrev pub restarts : Kube → Call → Bool
restarts k (create_call (of_job x)) = true
restarts k c = sends_undone k c

-- Some call in the log does.
unfoldable pub resets : Kube → List Entry → Bool
resets k [] = false
resets k (e ∷ before) = restarts k e.call || resets k before

module _ {k : Kube} (conditions : HasConditions k) (status : KeepsStatus k) where
  abbrev pub IsDone : Pass k → Type 0
  IsDone p = (restore_done k p.rpc ≡ true) × (resets k p.calls ≡ false)

  available-IsDone :
      (s : Available.StarknetRpcAvailableStatus) (p : Pass k)
      → IsDone p
      → IsDone (set_phases {k = k} (Available.apply k s ∷ []) p).1
  unfolding set_phases Available.apply resets
  available-IsDone s p h = ground (
    arith,
    conditions.is_true-set p.rpc.status.conditions (Available.as_condition s) "Restore",
    status.echo (Available.apply k s p.rpc) p.world,
  )

  created-IsDone :
      (x : Pod) (rs : List (ObjectReconcilier k.Fault Pod)) (p : Pass k)
      → IsDone p
      → IsDone (create_or_reconcile {k = k} k.pods x rs p).1
  unfolding create_or_reconcile resets
  created-IsDone x rs p h = ground arith

  is_ready-IsDone : (pod : Pod) (p : Pass k) → IsDone p → IsDone (is_ready {k = k} pod p).1
  unfolding is_ready resets
  is_ready-IsDone pod p h = ground arith

  delete-IsDone : (pod : Pod) (p : Pass k) → IsDone p → IsDone (delete {k = k} k.pods pod none p).1
  unfolding delete resets
  delete-IsDone pod p h = ground arith

  monitor-IsDone : (p : Pass k) → IsDone p → IsDone (reconcile_pod_monitor {k = k} p).1
  unfolding reconcile_pod_monitor resets
  monitor-IsDone p h = ground arith

  restore-IsDone : (p : Pass k) → IsDone p → IsDone (reconcile_archive_restore {k = k} p).1
  unfolding reconcile_archive_restore resets
  restore-IsDone p h = ground arith

  pod-IsDone : (p : Pass k) → IsDone p → IsDone (reconcile_pod {k = k} p).1
  pod-IsDone =
      reconcile_pod-keeps IsDone available-IsDone
        (λ p. created-IsDone (get_wanted_pod p.rpc) (image_reconciler p.rpc ∷ []) p) is_ready-IsDone
        delete-IsDone

  pvc-IsDone :
      (p : Pass k) (f : k.Fault)
      → (k.pvcs.create (get_wanted_pvc p.rpc) p.world).0 ≡ err f
      → IsDone p
      → IsDone (reconcile_pvc {k = k} p).1
  unfolding reconcile_pvc resets
  pvc-IsDone p f refused h = ground arith

  pub pvc_stage-IsDone :
      (p : Pass k) (f : k.Fault)
      → (k.pvcs.create (get_wanted_pvc p.rpc) p.world).0 ≡ err f
      → IsDone p
      → IsDone (pvc_stage {k = k} p).1
  unfolding pvc_stage
  pvc_stage-IsDone p f refused h =
      >>=-keeps {P = IsDone} reconcile_pvc (proceed restore_stage) p (pvc-IsDone p f refused h) (
        proceed-keeps IsDone restore_stage
          (restore_stage-keeps IsDone restore-IsDone (λ q g _. pod-IsDone q g) monitor-IsDone))
