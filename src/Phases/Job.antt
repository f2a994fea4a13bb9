-- ===== src/Phases/Job.antt =====
-- What the end of the restore job does to the resource and to the run.
use starknet_operators.Prelude.{arith, ◌≡◌, false, ltb}
use starknet_operators.Kubernetes.Core.{Job}
use starknet_operators.Kubernetes.Client.{Kube, ok, HasConditions, KeepsStatus}
use starknet_operators.Pass.{Pass}
use starknet_operators.Controller.Restore.{
  restore_done, judge_job, mark_archive_as_finished, mark_restore_as_failed, finished_condition,
  failed_condition,
}

module _ {k : Kube} (conditions : HasConditions k) (status : KeepsStatus k) where
  -- If the conditions and the status behave as documented, and the restore was not done, then
  -- after a job that was read is judged, the restore is done in the copy of the run exactly if
  -- the job has a succeeded pod, failed ones or not.
  judge_job-restores :
      (p : Pass k) (job : Job)
      → restore_done k p.rpc ≡ false
      → restore_done k (judge_job {k = k} (ok job) p).1.rpc ≡ ltb 0 job.succeeded
  unfolding judge_job mark_archive_as_finished mark_restore_as_failed
  judge_job-restores p job undone = ground (
    arith,
    conditions.is_true-set p.rpc.status.conditions finished_condition "Restore",
    conditions.is_true-set p.rpc.status.conditions failed_condition "Restore",
    status.echo (mark_archive_as_finished k p.rpc) p.world,
    status.echo (mark_restore_as_failed k p.rpc) p.world,
  )
