-- ===== src/Phases/Progress.antt =====
-- The runs that go on to the pod.
use starknet_operators.Prelude.{arith, ◌≡◌, refl, true, false, none, some}
use starknet_operators.Prog.{ret, >>=-keeps}
use starknet_operators.Kubernetes.Core.{Job, Pvc}
use starknet_operators.Kubernetes.Meta.{background}
use starknet_operators.Controller.Manifest.Storage.{get_wanted_restore_pvc}
use starknet_operators.Controller.Manifest.RestoreJob.{get_wanted_restore_job}
use starknet_operators.Kubernetes.Client.{Kube, Answer, ok, err, HasConditions, KeepsStatus}
use starknet_operators.V1alpha1.{StarknetRpc}
use starknet_operators.Pass.{Pass, Reply, done, pod_monitor_stored}
use starknet_operators.Controller.Restore.{
  restore_done, is_disabled, mark_restore_as_skipped, reconcile_archive_restore,
}
use starknet_operators.Controller.Pod.{reconcile_pod}
use starknet_operators.Controller.Reconcile.{
  proceed, monitor_stage, pod_stage, gate_stage, restore_stage,
}
use starknet_operators.Phases.Reset.{reconcile_archive_restore-passes}
use starknet_operators.Phases.Gate.{creates_pod}

-- The object is deleted, or was not there.
abbrev pub IsGone : (k : Kube) → Answer k.Fault (Unit {0}) → Type 0
IsGone k (ok _) = Unit
IsGone k (err f) = k.is_not_found f ≡ true

abbrev pub IsAccepted : {F A : Type 0} → Answer F A → Type 0
IsAccepted (ok _) = Unit
IsAccepted (err _) = ⊥

pub accepted-IsSome :
    {F : Type 0} (a : Answer F StarknetRpc) → IsAccepted a → (r : StarknetRpc) × (a ≡ ok r)
accepted-IsSome (ok r) fine = (r, refl)
accepted-IsSome (err f) fine = absurd fine

-- A pod was created, or its creation was tried.
abbrev HasPodCreation : {k : Kube} → Pass k → Type 0
HasPodCreation p = creates_pod p.calls ≡ true

module _ {k : Kube} where
  reconcile_pod-creates : (p : Pass k) → HasPodCreation (reconcile_pod {k = k} p).1
  unfolding reconcile_pod
  reconcile_pod-creates p = ground arith

  monitor_stage-keeps : (p : Pass k) → HasPodCreation p → HasPodCreation (monitor_stage {k = k} p).1
  unfolding monitor_stage
  monitor_stage-keeps p h = ground arith

  proceed-keeps :
      (reply : Reply k.Fault) (p : Pass k)
      → HasPodCreation p
      → HasPodCreation (proceed {k = k} monitor_stage reply p).1
  proceed-keeps reply p h = ground (arith, monitor_stage-keeps p h)

  pub gate_stage-creates :
      (p : Pass k) → restore_done k p.rpc ≡ true → HasPodCreation (gate_stage {k = k} p).1
  unfolding gate_stage pod_stage
  gate_stage-creates p h = rw h (
      >>=-keeps {P = HasPodCreation} reconcile_pod (proceed monitor_stage) p
        (reconcile_pod-creates p) proceed-keeps)

module _ {k : Kube} (conditions : HasConditions k) (status : KeepsStatus k) where
  -- If the conditions and the status behave as documented, and the handler of the restore returns
  -- without an error, then the stages from the restore on create the pod, or try to.
  pub restored-creates_pod :
      (p : Pass k) (reply : Reply k.Fault)
      → (reconcile_archive_restore {k = k} p).0 ≡ ret reply
      → reply.error ≡ none
      → creates_pod (restore_stage {k = k} p).1.calls ≡ true
  unfolding restore_stage
  restored-creates_pod p reply returned fine =
      rw (returned, fine)
        (gate_stage-creates (reconcile_archive_restore {k = k} p).1
          (reconcile_archive_restore-passes conditions status p reply returned fine))

  -- If the conditions and the status behave as documented, the restore is disabled and not done,
  -- and the server accepts the status that marks it as skipped, then the stages from the restore
  -- on create the pod, or try to.
  pub disabled-creates_pod :
      (p : Pass k) (r : StarknetRpc)
      → restore_done k p.rpc ≡ false
      → is_disabled p.rpc.spec.restore_archive.enable ≡ true
      → (k.update_status (mark_restore_as_skipped k p.rpc) p.world).0 ≡ ok r
      → creates_pod (restore_stage {k = k} p).1.calls ≡ true
  unfolding reconcile_archive_restore
  disabled-creates_pod p r undone disabled accepted =
      restored-creates_pod p done (ground arith) refl

  -- If the conditions and the status behave as documented, the restore is done, and the server
  -- answers the deletions of jobs and of claims with success or with "not found", then the stages
  -- from the restore on create the pod, or try to.
  pub done-creates_pod :
      (p : Pass k)
      → restore_done k p.rpc ≡ true
      → ((x : Job) (w : k.World) → IsGone k (k.jobs.delete x (some background) w).0)
      → ((x : Pvc) (w : k.World) → IsGone k (k.pvcs.delete x none w).0)
      → creates_pod (restore_stage {k = k} p).1.calls ≡ true
  unfolding reconcile_archive_restore
  done-creates_pod p restored job_gone pvc_gone =
      let job = get_wanted_restore_job p.rpc in
      restored-creates_pod p done
        (ground (
          arith,
          job_gone job p.world,
          pvc_gone (get_wanted_restore_pvc p.rpc) (k.jobs.delete job (some background) p.world).1,
        ))
        refl
