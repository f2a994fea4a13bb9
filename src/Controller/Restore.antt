-- ===== src/Controller/Restore.antt =====
-- internal/controller/starknetrpc_archive_restore.go: the archive is restored once, by a job over
-- a scratch claim; afterwards both are removed.
use starknet_operators.Prelude.{Bool, false, not, Option, none, some, [], ◌∷◌, ltb, if◌then◌else◌}
use starknet_operators.Prog.{pure, ◌>>=◌}
use starknet_operators.Kubernetes.Meta.{
  Condition, condition_true, condition_false, object_key, background,
}
use starknet_operators.Kubernetes.Core.{Pvc, Job}
use starknet_operators.Kubernetes.Client.{Kube, Answer, ok, err}
use starknet_operators.V1alpha1.{StarknetRpc, with_conditions}
use starknet_operators.Pass.{
  M, Error, next_loop, terminate_loop, api, Reply, done, failed_with, again, or_fail, after_seconds,
  current, create, get, delete, pvc_stored, job_stored,
}
use starknet_operators.Condition.{StateTransition, set_phases}
use starknet_operators.Controller.Manifest.Storage.{get_wanted_restore_pvc}
use starknet_operators.Controller.Manifest.RestoreJob.{get_wanted_restore_job}
use starknet_operators.Controller.Pvc.{is_ready, ensure_pvc_ready}

abbrev pub mark : (k : Kube) → Condition → StateTransition
mark k c cluster = with_conditions (k.set_status_condition cluster.status.conditions c) cluster

abbrev pub finished_condition : Condition
finished_condition = record {
  type = "Restore";
  status = condition_true;
  reason = "ArchiveJobFinished";
  message = "The archive restore job has successfully run";
}

abbrev pub failed_condition : Condition
failed_condition = record {
  type = "Restore";
  status = condition_false;
  reason = "ArchiveJobFailed";
  message = "The archive restore job has failed";
}

abbrev pub skipped_condition : Condition
skipped_condition = record {
  type = "Restore";
  status = condition_true;
  reason = "ArchiveRestoreSkipped";
  message = "The configuration was configured to skip the archive restore process";
}

abbrev pub progressing_condition : Condition
progressing_condition = record {
  type = "Restore";
  status = condition_false;
  reason = "ArchiveJobProgressing";
  message = "The archive restore job is currently running";
}

module _ (k : Kube) where
  unfoldable pub mark_archive_as_finished : StateTransition
  mark_archive_as_finished = mark k finished_condition

  unfoldable pub mark_restore_as_failed : StateTransition
  mark_restore_as_failed = mark k failed_condition

  unfoldable pub mark_restore_as_skipped : StateTransition
  mark_restore_as_skipped = mark k skipped_condition

  unfoldable pub mark_restore_as_progressing : StateTransition
  mark_restore_as_progressing = mark k progressing_condition

-- meta.IsStatusConditionTrue(cluster.Status.Conditions, "Restore")
abbrev pub restore_done : (k : Kube) → StarknetRpc → Bool
restore_done k cluster = k.is_status_condition_true cluster.status.conditions "Restore"

-- cluster.Spec.RestoreArchive.Enable != nil && !*cluster.Spec.RestoreArchive.Enable
abbrev pub is_disabled : Option Bool → Bool
is_disabled none = false
is_disabled (some enable) = not enable

-- client.IgnoreNotFound(err) != nil
abbrev matters : (k : Kube) → Answer k.Fault (Unit {0}) → Option (Error k.Fault)
matters k (ok _) = none
matters k (err f) = if k.is_not_found f then none else some (api f)

module _ {k : Kube} where
  remove_pvc : StarknetRpc → Option (Error k.Fault) → M k (Reply k.Fault)
  unfolding delete
  remove_pvc cluster (some e) = pure (failed_with e)
  remove_pvc cluster none = do
    answer ← delete k.pvcs (get_wanted_restore_pvc cluster) none
    pure (or_fail (matters k answer) done)

  unfoldable pub clean_up : StarknetRpc → M k (Reply k.Fault)
  unfolding remove_pvc delete
  clean_up cluster = do
    answer ← delete k.jobs (get_wanted_restore_job cluster) (some background)
    remove_pvc cluster (matters k answer)

  unfoldable pub skip : M k (Reply k.Fault)
  unfolding set_phases
  skip = do error ← set_phases (mark_restore_as_skipped k ∷ []); pure (or_fail error done)

  -- The job that exists: finished, failed, or still running.
  unfoldable pub judge_job : Answer k.Fault Job → M k (Reply k.Fault)
  unfolding set_phases
  judge_job (err f) = pure (failed_with (api f))
  judge_job (ok job) =
      if ltb 0 job.succeeded
      then (do
        error ← set_phases (mark_archive_as_finished k ∷ [])
        pure (or_fail error (again (after_seconds 1))))
      else if ltb 0 job.failed
      then (do
        error ← set_phases (mark_restore_as_failed k ∷ [])
        pure (or_fail error (failed_with terminate_loop)))
      else pure (again (after_seconds 30))

  unfoldable pub after_create_job : Job → Answer k.Fault Job → M k (Reply k.Fault)
  unfolding judge_job set_phases get
  after_create_job wanted (ok _) = do
    error ← set_phases (mark_restore_as_progressing k ∷ [])
    pure (or_fail error (again (after_seconds 1)))
  after_create_job wanted (err f) =
      if k.is_already_exists f
      then (do answer ← get k.jobs (object_key wanted.meta); judge_job answer)
      else pure (failed_with (api f))

  unfoldable pub run_job : M k (Reply k.Fault)
  unfolding after_create_job create
  run_job = do
    cluster ← current
    answer ← create k.jobs (get_wanted_restore_job cluster)
    after_create_job (get_wanted_restore_job cluster) answer

  -- `if err != nil { if err == errs.ErrNextLoop { return result, err }; return nil, err }`
  unfoldable pub after_ensure : Reply k.Fault → M k (Reply k.Fault)
  unfolding run_job
  after_ensure reply = elim reply.error [
    | none ↦ run_job
    | some next_loop ↦ pure (record { result = reply.result; error = some next_loop })
    | some e ↦ pure (failed_with e)
  ]

  unfoldable pub after_get_pvc : Answer k.Fault Pvc → M k (Reply k.Fault)
  unfolding after_ensure is_ready ensure_pvc_ready
  after_get_pvc (err f) =
      if k.is_not_found f then pure (again (after_seconds 1)) else pure (failed_with (api f))
  after_get_pvc (ok pvc) =
      if not (is_ready pvc)
      then pure (again (after_seconds 1))
      else do reply ← ensure_pvc_ready; after_ensure reply

  unfoldable pub fetch_pvc : Pvc → M k (Reply k.Fault)
  unfolding after_get_pvc get
  fetch_pvc pvc = do answer ← get k.pvcs (object_key pvc.meta); after_get_pvc answer

  unfoldable pub after_create_pvc : Pvc → Answer k.Fault Pvc → M k (Reply k.Fault)
  unfolding fetch_pvc
  after_create_pvc wanted (ok pvc) = fetch_pvc pvc
  after_create_pvc wanted (err f) =
      if k.is_already_exists f then fetch_pvc wanted else pure (failed_with (api f))

  unfoldable pub start : StarknetRpc → M k (Reply k.Fault)
  unfolding after_create_pvc create
  start cluster = do
    answer ← create k.pvcs (get_wanted_restore_pvc cluster)
    after_create_pvc (get_wanted_restore_pvc cluster) answer

  unfoldable pub reconcile_archive_restore : M k (Reply k.Fault)
  unfolding clean_up skip start
  reconcile_archive_restore = do
    cluster ← current
    if restore_done k cluster
        then clean_up cluster
        else if is_disabled cluster.spec.restore_archive.enable
        then skip
        else start cluster
