-- ===== src/History/Earning.antt =====
-- The handlers send no status that says too early that the restore is done.
use starknet_operators.Prelude.{
  arith, ◌≡◌, refl, ◌||◌, ltb, some, List, [], ◌∷◌, Bool-cases, inl, inr,
}
use starknet_operators.Prog.{>>=-keeps}
use starknet_operators.Kubernetes.Core.{Pvc, Job}
use starknet_operators.Kubernetes.Meta.{NamespacedName, object_key}
use starknet_operators.Kubernetes.Client.{
  Kube, Resource, Answer, ok, err, HasConditions, KeepsStatus,
}
use starknet_operators.V1alpha1.{StarknetRpc}
use starknet_operators.Pass.{
  of_job, Entry, Pass, Reply, object_of, create, get, Stored, job_stored, pvc_stored, pod_stored,
}
use starknet_operators.Condition.{set_phases}
use starknet_operators.Condition.Available
use starknet_operators.Condition.Restore
use starknet_operators.Condition.Initialize.{initial_phases}
use starknet_operators.Policy.{last_sent}
use starknet_operators.Controller.Manifest.Storage.{get_wanted_pvc, get_wanted_restore_pvc}
use starknet_operators.Controller.Manifest.RestoreJob.{get_wanted_restore_job}
use starknet_operators.Controller.Pvc.{reconcile_pvc, is_ready, ensure_pvc_ready}
use starknet_operators.Controller.Restore.{
  restore_done, judge_job, after_create_job, run_job, after_ensure, after_get_pvc, fetch_pvc,
  after_create_pvc, start, clean_up, reconcile_archive_restore, finished_condition,
  failed_condition, progressing_condition, mark_archive_as_finished, mark_restore_as_failed,
  mark_restore_as_progressing,
}
use starknet_operators.History.Marks.{saw_finished, marks_early, IsEarning}

saw_last :
    (l : List Entry) (job : Job)
    → last_sent l ≡ some (of_job job)
    → saw_finished l ≡ ltb 0 job.succeeded || saw_finished l
unfolding saw_finished
saw_last [] job sent = ground arith
saw_last (e ∷ l) job sent = rw sent (ground arith)

module _ {k : Kube} (conditions : HasConditions k) (status : KeepsStatus k) where
  abbrev pub Earns : Pass k → Type 0
  Earns = IsEarning conditions status

  read-Earns :
      {T : Type 0} ⦃s : Stored T⦄ (r : Resource k.World k.Fault T) (n : NamespacedName) (p : Pass k)
      → Earns p
      → Earns (get {k = k} r n p).1
  unfolding get marks_early
  read-Earns r n p h = ground arith

  create-Earns :
      {T : Type 0} ⦃s : Stored T⦄ (r : Resource k.World k.Fault T) (x : T) (p : Pass k)
      → Earns p
      → Earns (create {k = k} r x p).1
  unfolding create marks_early
  create-Earns r x p h = ground arith

  pub initial-Earns : (p : Pass k) → Earns p → Earns (set_phases {k = k} (initial_phases k) p).1
  unfolding set_phases marks_early Restore.apply Available.apply
  initial-Earns p h =
      let c = Restore.as_condition Restore.pending in
      let d = Available.as_condition Available.pending in
      ground (
        arith,
        conditions.is_true-set p.rpc.status.conditions c "Restore",
        conditions.is_true-set (k.set_status_condition p.rpc.status.conditions c) d "Restore",
        status.echo (Available.apply k Available.pending (Restore.apply k Restore.pending p.rpc))
            p.world,
      )

  pub pvc-Earns : (p : Pass k) → Earns p → Earns (reconcile_pvc {k = k} p).1
  unfolding reconcile_pvc marks_early Restore.apply
  pvc-Earns p h =
      let c = Restore.as_condition Restore.pending in
      ground (
        arith,
        conditions.is_true-set p.rpc.status.conditions c "Restore",
        status.echo (Restore.apply k Restore.pending p.rpc)
            (k.pvcs.create (get_wanted_pvc p.rpc) p.world).1,
      )

  judge_job-Earns :
      (a : Answer k.Fault Job) (p : Pass k)
      → last_sent p.calls ≡ object_of of_job a
      → Earns p
      → Earns (judge_job {k = k} a p).1
  unfolding judge_job marks_early mark_archive_as_finished mark_restore_as_failed
  judge_job-Earns (err f) p sent h = h
  judge_job-Earns (ok job) p sent h = ground (
    arith,
    saw_last p.calls job sent,
    conditions.is_true-set p.rpc.status.conditions finished_condition "Restore",
    status.echo (mark_archive_as_finished k p.rpc) p.world,
    conditions.is_true-set p.rpc.status.conditions failed_condition "Restore",
    status.echo (mark_restore_as_failed k p.rpc) p.world,
  )

  after_create_job-Earns :
      (wanted : Job) (a : Answer k.Fault Job) (p : Pass k)
      → Earns p
      → Earns (after_create_job {k = k} wanted a p).1
  unfolding after_create_job marks_early mark_restore_as_progressing get
  after_create_job-Earns wanted (ok job) p h = ground (
    arith,
    conditions.is_true-set p.rpc.status.conditions progressing_condition "Restore",
    status.echo (mark_restore_as_progressing k p.rpc) p.world,
  )
  after_create_job-Earns wanted (err f) p h = elim (Bool-cases (k.is_already_exists f)) [
    | inl e ↦
        let key = object_key wanted.meta in
        rw e (
          judge_job-Earns (k.jobs.get key p.world).0 (get {k = k} k.jobs key p).1 refl
            (read-Earns k.jobs key p h))
    | inr e ↦ rw e h
  ]

  run_job-Earns : (p : Pass k) → Earns p → Earns (run_job {k = k} p).1
  unfolding run_job create
  run_job-Earns p h =
      let job = get_wanted_restore_job p.rpc in
      after_create_job-Earns job (k.jobs.create job p.world).0 (create {k = k} k.jobs job p).1
        (create-Earns k.jobs job p h)

  after_ensure-Earns :
      (reply : Reply k.Fault) (p : Pass k) → Earns p → Earns (after_ensure {k = k} reply p).1
  unfolding after_ensure
  after_ensure-Earns reply p h = ground (arith, run_job-Earns p h)

  ensure-Earns : (p : Pass k) → Earns p → Earns (ensure_pvc_ready {k = k} p).1
  unfolding ensure_pvc_ready marks_early
  ensure-Earns p h = ground arith

  after_get_pvc-Earns :
      (a : Answer k.Fault Pvc) (p : Pass k) → Earns p → Earns (after_get_pvc {k = k} a p).1
  unfolding after_get_pvc
  after_get_pvc-Earns (err f) p h = elim (Bool-cases (k.is_not_found f)) [
    | inl e ↦ rw e h
    | inr e ↦ rw e h
  ]
  after_get_pvc-Earns (ok pvc) p h = elim (Bool-cases (is_ready pvc)) [
    | inl e ↦ rw e (
        >>=-keeps {P = Earns} ensure_pvc_ready after_ensure p (ensure-Earns p h) after_ensure-Earns)
    | inr e ↦ rw e h
  ]

  fetch_pvc-Earns : (pvc : Pvc) (p : Pass k) → Earns p → Earns (fetch_pvc {k = k} pvc p).1
  unfolding fetch_pvc
  fetch_pvc-Earns pvc p h =
      >>=-keeps {P = Earns} (get {k = k} k.pvcs (object_key pvc.meta)) after_get_pvc p
        (read-Earns k.pvcs (object_key pvc.meta) p h) after_get_pvc-Earns

  after_create_pvc-Earns :
      (wanted : Pvc) (a : Answer k.Fault Pvc) (p : Pass k)
      → Earns p
      → Earns (after_create_pvc {k = k} wanted a p).1
  unfolding after_create_pvc
  after_create_pvc-Earns wanted (ok pvc) p h = fetch_pvc-Earns pvc p h
  after_create_pvc-Earns wanted (err f) p h = elim (Bool-cases (k.is_already_exists f)) [
    | inl e ↦ rw e (fetch_pvc-Earns wanted p h)
    | inr e ↦ rw e h
  ]

  start-Earns : (cluster : StarknetRpc) (p : Pass k) → Earns p → Earns (start {k = k} cluster p).1
  unfolding start
  start-Earns cluster p h =
      let pvc = get_wanted_restore_pvc cluster in
      >>=-keeps {P = Earns} (create {k = k} k.pvcs pvc) (after_create_pvc pvc) p
        (create-Earns k.pvcs pvc p h) (after_create_pvc-Earns pvc)

  clean_up-Earns :
      (cluster : StarknetRpc) (p : Pass k) → Earns p → Earns (clean_up {k = k} cluster p).1
  unfolding clean_up marks_early
  clean_up-Earns cluster p h = ground arith

  pub restore-Earns : (p : Pass k) → Earns p → Earns (reconcile_archive_restore {k = k} p).1
  unfolding reconcile_archive_restore
  restore-Earns p h = elim (Bool-cases (restore_done k p.rpc)) [
    | inl e ↦ rw e (clean_up-Earns p.rpc p h)
    | inr e ↦ rw (e, h.0) (start-Earns p.rpc p h)
  ]
