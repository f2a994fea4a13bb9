-- ===== src/History/Fails.antt =====
-- A restore whose job has failed: the run reports it, and makes no pod.
use starknet_operators.Prelude.{arith, ◌≡◌, refl, ◌∙◌, true, false, ltb, List, [], ◌∷◌}
use starknet_operators.Prog.{Outcome, ret, ◌>>=◌}
use starknet_operators.Kubernetes.Meta.{NamespacedName, Condition, object_key}
use starknet_operators.Kubernetes.Core.{Pvc, Job}
use starknet_operators.Kubernetes.Client.{Kube, Answer, ok, err, HasConditions, KeepsStatus}
use starknet_operators.V1alpha1.{StarknetRpc}
use starknet_operators.Condition.{set_phases}
use starknet_operators.Pass.{
  Entry, update_status_call, Pass, Reply, terminate_loop, failed_with, create, get, pvc_stored,
  job_stored, begin, get_rpc,
}
use starknet_operators.Condition.Initialize.{initialize_if, initialize}
use starknet_operators.Controller.Manifest.Names.{get_storage_pvc_name}
use starknet_operators.Controller.Manifest.Storage.{get_wanted_pvc, get_wanted_restore_pvc}
use starknet_operators.Controller.Manifest.RestoreJob.{get_wanted_restore_job}
use starknet_operators.Controller.Pvc.{ensure_pvc_ready, reconcile_pvc}
use starknet_operators.Controller.Restore.{
  restore_done, is_disabled, judge_job, after_create_job, run_job, after_get_pvc, fetch_pvc,
  after_create_pvc, start, reconcile_archive_restore, mark_restore_as_failed, failed_condition,
}
use starknet_operators.Controller.Reconcile.{
  Verdict, after_initialize, after_fetch, restore_stage, pvc_stage, broken, reconcile,
}
use starknet_operators.Phases.Gate.{creates_pod, restore_stage-waits}
use starknet_operators.Phases.Progress.{accepted-IsSome, IsAccepted}
use starknet_operators.History.Settles.{IsExisting, IsBound, IsWanted, has_conditions}

-- The job has failed pods, and none that succeeded.
abbrev pub IsFailed : {F : Type 0} → Answer F Job → Type 0
IsFailed (ok job) = (ltb 0 job.succeeded ≡ false) × (ltb 0 job.failed ≡ true)
IsFailed (err _) = ⊥

-- A server with all that the restore of a resource waits for, but whose job has failed.
pub record Fails (k : Kube) (name : NamespacedName) : Type 0 where
  pub sends : (w : k.World) → IsWanted k false (k.get_rpc name w).0
  pub accepts : (r : StarknetRpc) (w : k.World) → IsAccepted (k.update_status r w).0
  pub claims : (x : Pvc) (w : k.World) → IsExisting k (k.pvcs.create x w).0
  pub bound : (n : NamespacedName) (w : k.World) → IsBound (k.pvcs.get n w).0
  pub started : (x : Job) (w : k.World) → IsExisting k (k.jobs.create x w).0
  pub failed : (n : NamespacedName) (w : k.World) → IsFailed (k.jobs.get n w).0

-- The latest call sends the status that marks the restore as failed.
unfoldable pub SendsFailure : Kube → List Entry → Type 0
SendsFailure k [] = ⊥
SendsFailure k (e ∷ before) =
    (r : StarknetRpc) × (e.call ≡ update_status_call (mark_restore_as_failed k r))

module _ {k : Kube} (name : NamespacedName) (server : Fails k name) (conditions : HasConditions k)
    (status : KeepsStatus k) where
  -- The handler returns `ErrTerminateLoop`, and the restore is not done in the copy of the run.
  abbrev GivesUp : Outcome (Reply k.Fault) × Pass k → Type 0
  GivesUp r =
      (r.0 ≡ ret (failed_with terminate_loop))
      × (restore_done k r.1.rpc ≡ false)
      × SendsFailure k r.1.calls

  judge_job-SendsFailure :
      (a : Answer k.Fault Job) (p : Pass k)
      → IsFailed a
      → SendsFailure k (judge_job {k = k} a p).1.calls
  unfolding judge_job SendsFailure set_phases mark_restore_as_failed
  judge_job-SendsFailure (err f) p failed = absurd failed
  judge_job-SendsFailure (ok job) p (none_yet, some_failed) =
      let marked = mark_restore_as_failed k p.rpc in
      let (r, sent) =
        accepted-IsSome (k.update_status marked p.world).0 (server.accepts marked p.world) in
      rw (none_yet, some_failed, sent) (p.rpc, refl)

  judge_job-GivesUp :
      (a : Answer k.Fault Job) (p : Pass k) → IsFailed a → GivesUp (judge_job {k = k} a p)
  unfolding judge_job mark_restore_as_failed
  judge_job-GivesUp a p failed = ground (
    arith,
    failed,
    conditions.is_true-set p.rpc.status.conditions failed_condition "Restore",
    server.accepts (mark_restore_as_failed k p.rpc) p.world,
    status.echo (mark_restore_as_failed k p.rpc) p.world,
    judge_job-SendsFailure a p failed,
  )

  run_job-GivesUp : (p : Pass k) → GivesUp (run_job {k = k} p)
  unfolding run_job after_create_job create get
  run_job-GivesUp p =
      let job = get_wanted_restore_job p.rpc in
      let (_, w) = k.jobs.create job p.world in
      let q = (create {k = k} k.jobs job p).1 in
      let key = object_key job.meta in
      ground (
        arith,
        server.started job p.world,
        judge_job-GivesUp (k.jobs.get key w).0 (get {k = k} k.jobs key q).1 (server.failed key w),
      )

  fetch_pvc-GivesUp : (pvc : Pvc) (p : Pass k) → GivesUp (fetch_pvc {k = k} pvc p)
  unfolding fetch_pvc after_get_pvc ensure_pvc_ready get
  fetch_pvc-GivesUp pvc p =
      let key = object_key pvc.meta in
      let storage = get_storage_pvc_name p.rpc in
      let q = (get {k = k} k.pvcs key p).1 in
      ground (
        arith,
        server.bound key p.world,
        server.bound storage q.world,
        run_job-GivesUp (get {k = k} k.pvcs storage q).1,
      )

  start-GivesUp : (cluster : StarknetRpc) (p : Pass k) → GivesUp (start {k = k} cluster p)
  unfolding start after_create_pvc create
  start-GivesUp cluster p =
      let pvc = get_wanted_restore_pvc cluster in
      ground
        (arith, server.claims pvc p.world, fetch_pvc-GivesUp pvc (create {k = k} k.pvcs pvc p).1)

  -- The stages end with that error, the restore stays undone, and no pod is created.
  abbrev Reports : Outcome (Verdict k.Fault) × Pass k → Type 0
  Reports r =
      (r.0 ≡ ret (broken terminate_loop))
      × (restore_done k r.1.rpc ≡ false)
      × SendsFailure k r.1.calls
      × (creates_pod r.1.calls ≡ false)

  handler-GivesUp :
      (p : Pass k)
      → restore_done k p.rpc ≡ false
      → is_disabled p.rpc.spec.restore_archive.enable ≡ false
      → GivesUp (reconcile_archive_restore {k = k} p)
  unfolding reconcile_archive_restore
  handler-GivesUp p undone enabled = rw (undone, enabled) (start-GivesUp p.rpc p)

  restore_stage-Reports :
      (p : Pass k)
      → restore_done k p.rpc ≡ false
      → is_disabled p.rpc.spec.restore_archive.enable ≡ false
      → creates_pod p.calls ≡ false
      → Reports (restore_stage {k = k} p)
  unfolding restore_stage
  restore_stage-Reports p undone enabled none_yet =
      let (returned, still, sent) = handler-GivesUp p undone enabled in
      (
        rw returned refl,
        rw returned still,
        rw returned sent,
        restore_stage-waits p (undone, enabled) ∙ none_yet,
      )

  pvc_stage-Reports :
      (p : Pass k)
      → restore_done k p.rpc ≡ false
      → is_disabled p.rpc.spec.restore_archive.enable ≡ false
      → creates_pod p.calls ≡ false
      → Reports (pvc_stage {k = k} p)
  unfolding pvc_stage reconcile_pvc create
  pvc_stage-Reports p undone enabled none_yet =
      let pvc = get_wanted_pvc p.rpc in
      ground (
        arith,
        server.claims pvc p.world,
        restore_stage-Reports (create {k = k} k.pvcs pvc p).1 undone enabled none_yet,
      )

  initialized-Reports :
      (cs : List Condition) (p : Pass k)
      → has_conditions cs ≡ true
      → restore_done k p.rpc ≡ false
      → is_disabled p.rpc.spec.restore_archive.enable ≡ false
      → creates_pod p.calls ≡ false
      → Reports ((initialize_if {k = k} cs >>= after_initialize) p)
  initialized-Reports [] p known undone enabled none_yet = absurd (cc)
  initialized-Reports (c ∷ cs) p known undone enabled none_yet =
      pvc_stage-Reports p undone enabled none_yet

  run-Reports :
      (w : k.World) (a : Answer k.Fault StarknetRpc)
      → (k.get_rpc name w).0 ≡ a
      → IsWanted k false a
      → Reports (reconcile {k = k} name (begin w))
  unfolding reconcile after_fetch get_rpc initialize
  run-Reports w (err f) sent wanted = absurd wanted
  run-Reports w (ok r) sent (undone, enabled, known) =
      let p = record (get_rpc {k = k} name (begin w)).1 { rpc = r } in
      let rest = initialized-Reports r.status.conditions p known undone enabled refl in rw sent rest

  -- If the conditions and the status behave as documented, and a server sends a resource with
  -- conditions and with its restore wanted and not done, accepts every status, and has the
  -- claims, bound, and the job, with failed pods and no succeeded one, then a run returns
  -- `ErrTerminateLoop` to controller-runtime as its error, with the empty result; its latest call
  -- sends the status that marks the restore as failed, the restore is not done in the copy of the
  -- run, and no pod creation is among its calls.
  pub failed_job-is_reported :
      (w : k.World)
      → ((reconcile {k = k} name (begin w)).0 ≡ ret (broken terminate_loop))
        × (restore_done k (reconcile {k = k} name (begin w)).1.rpc ≡ false)
        × SendsFailure k (reconcile {k = k} name (begin w)).1.calls
        × (creates_pod (reconcile {k = k} name (begin w)).1.calls ≡ false)
  failed_job-is_reported w = run-Reports w (k.get_rpc name w).0 refl (server.sends w)
