-- ===== src/Phases/Reset.antt =====
-- What a new storage claim, and the end of the restore's handler, do to the restore's condition.
use starknet_operators.Prelude.{arith, ◌≡◌, true, false, none}
use starknet_operators.Prog.{ret}
use starknet_operators.Kubernetes.Core.{Pvc}
use starknet_operators.Kubernetes.Client.{Kube, ok, HasConditions, KeepsStatus}
use starknet_operators.Pass.{Pass, Reply}
use starknet_operators.Condition.Restore
use starknet_operators.Controller.Manifest.Storage.{get_wanted_pvc}
use starknet_operators.Controller.Pvc.{reconcile_pvc}
use starknet_operators.Controller.Restore.{
  restore_done, reconcile_archive_restore, mark_restore_as_skipped, skipped_condition,
}

module _ {k : Kube} (conditions : HasConditions k) (status : KeepsStatus k) where
  -- If the conditions and the status behave as documented, the server creates the storage claim,
  -- and the handler of the claim returns without an error, then the restore is no longer done in
  -- the copy of the run, and the specification is the one it had.
  pub reconcile_pvc-resets :
      (p : Pass k) (pvc : Pvc) (reply : Reply k.Fault)
      → (k.pvcs.create (get_wanted_pvc p.rpc) p.world).0 ≡ ok pvc
      → (reconcile_pvc {k = k} p).0 ≡ ret reply
      → reply.error ≡ none
      → (restore_done k (reconcile_pvc {k = k} p).1.rpc ≡ false)
        × ((reconcile_pvc {k = k} p).1.rpc.spec ≡ p.rpc.spec)
  unfolding reconcile_pvc Restore.apply
  reconcile_pvc-resets p pvc reply created returned fine =
      let w = (k.pvcs.create (get_wanted_pvc p.rpc) p.world).1 in
      ground (
        arith,
        conditions.is_true-set p.rpc.status.conditions (Restore.as_condition Restore.pending)
            "Restore",
        status.echo (Restore.apply k Restore.pending p.rpc) w,
      )

  -- If the conditions and the status behave as documented, and the handler of the restore returns
  -- without an error, then the restore is done in the copy of the run.
  pub reconcile_archive_restore-passes :
      (p : Pass k) (reply : Reply k.Fault)
      → (reconcile_archive_restore {k = k} p).0 ≡ ret reply
      → reply.error ≡ none
      → restore_done k (reconcile_archive_restore {k = k} p).1.rpc ≡ true
  unfolding reconcile_archive_restore mark_restore_as_skipped
  reconcile_archive_restore-passes p reply returned fine = ground (
    arith,
    conditions.is_true-set p.rpc.status.conditions skipped_condition "Restore",
    status.echo (mark_restore_as_skipped k p.rpc) p.world,
  )
