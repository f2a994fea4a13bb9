-- ===== src/History/Runs.antt =====
-- A resource over any number of runs, with other writers in between.
use starknet_operators.Prelude.{◌≡◌, Bool, true, false, ◌||◌, ◌⊎◌}
use starknet_operators.Kubernetes.Meta.{NamespacedName}
use starknet_operators.Kubernetes.Client.{Kube, ok}
use starknet_operators.V1alpha1.{StarknetRpc}
use starknet_operators.Pass.{Call, update_status_call, Pass, begin, get_rpc}
use starknet_operators.Controller.Restore.{restore_done, is_disabled}
use starknet_operators.Controller.Reconcile.{reconcile}
use starknet_operators.History.Replay.{perform}
use starknet_operators.History.Marks.{saw_finished}

abbrev pub sends_status : Call → Bool
sends_status (update_status_call r) = true
sends_status _ = false

-- What the server holds of one resource: whether its restore is done, and whether it is disabled.
pub record View (k : Kube) : Type 0 where
  pub done : k.World → Bool
  pub disabled : k.World → Bool

-- The server sends what it holds, and only a status that says that the restore is done makes it so.
pub record IsView (k : Kube) (name : NamespacedName) (view : View k) : Type 0 where
  pub reads :
      (w : k.World) (r : StarknetRpc)
      → (k.get_rpc name w).0 ≡ ok r
      → (restore_done k r ≡ view.done w)
        × (is_disabled r.spec.restore_archive.enable ≡ view.disabled w)
  pub writes :
      (r : StarknetRpc) (w : k.World)
      → view.done (k.update_status r w).1 ≡ true
      → restore_done k r || view.done w ≡ true
  pub leaves :
      (c : Call) (w : k.World) → sends_status c ≡ false → view.done (perform k c w) ≡ view.done w

-- Others do not mark the restore as done.
abbrev pub LeavesUndone : {k : Kube} → View k → k.World → k.World → Type 0
LeavesUndone view w w' = view.done w ≡ false → view.done w' ≡ false

module _ (k : Kube) (name : NamespacedName) (view : View k) where
  -- A run from this world has a reason to mark the restore as done: it is disabled, or a job that
  -- the run reads has a succeeded pod.
  abbrev pub HasReason : k.World → Type 0
  HasReason w =
      (view.disabled w ≡ true) ⊎ (saw_finished (reconcile {k = k} name (begin w)).1.calls ≡ true)
