-- ===== src/History/Marks.antt =====
-- When a run marks a restore as done: what its log says before that.
use starknet_operators.Prelude.{
  arith, ◌≡◌, Bool, true, false, not, ◌&&◌, ◌||◌, ltb, ◌==◌, Option, some, List, [], ◌∷◌,
}
use starknet_operators.Kubernetes.Meta.{Condition}
use starknet_operators.Kubernetes.Client.{Kube, HasConditions, KeepsStatus, is_true}
use starknet_operators.Pass.{
  Object, of_job, Call, update_status_call, Entry, Pass, job_stored, pvc_stored, pod_stored,
}
use starknet_operators.Condition.{set_phases}
use starknet_operators.Controller.Restore.{restore_done, is_disabled, mark}

-- The server sent a job with a succeeded pod.
abbrev pub is_finished : Option Object → Bool
is_finished (some (of_job job)) = ltb 0 job.succeeded
is_finished _ = false

unfoldable pub saw_finished : List Entry → Bool
saw_finished [] = false
saw_finished (e ∷ before) = is_finished e.sent || saw_finished before

abbrev pub marks_done : Kube → Call → Bool
marks_done k (update_status_call r) = restore_done k r
marks_done k _ = false

-- A status with the restore done was sent before a finished job was read.
unfoldable pub marks_early : Kube → List Entry → Bool
unfolding saw_finished
marks_early k [] = false
marks_early k (e ∷ before) =
    (marks_done k e.call && not (saw_finished before)) || marks_early k before

module _ {k : Kube} (conditions : HasConditions k) (status : KeepsStatus k) where
  -- The restore is wanted, and where the copy or the log says that it is done, a finished job was read.
  abbrev pub IsEarning : Pass k → Type 0
  IsEarning p =
      (is_disabled p.rpc.spec.restore_archive.enable ≡ false)
      × (restore_done k p.rpc && not (saw_finished p.calls) ≡ false)
      × (marks_early k p.calls ≡ false)

  -- A condition that is set, and sent.
  pub set_phases-IsEarning :
      (c : Condition) (p : Pass k)
      → (c.type == "Restore" ≡ true → is_true c.status && not (saw_finished p.calls) ≡ false)
      → IsEarning p
      → IsEarning (set_phases {k = k} (mark k c ∷ []) p).1
  unfolding set_phases marks_early
  set_phases-IsEarning c p may h = ground (
    arith,
    may,
    conditions.is_true-set p.rpc.status.conditions c "Restore",
    status.echo (mark k c p.rpc) p.world,
  )
