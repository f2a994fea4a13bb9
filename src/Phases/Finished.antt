-- ===== src/Phases/Finished.antt =====
-- The job that was read before the restore is marked as done.
use starknet_operators.Prelude.{
  arith, ◌≡◌, refl, true, false, ltb, Option, some, List, ◌∷◌, Bool-cases, inl, inr,
}
use starknet_operators.Prog.{Outcome, ret, panic, continue, ◌>>=◌}
use starknet_operators.Kubernetes.Meta.{object_key}
use starknet_operators.Kubernetes.Core.{Pvc, Job}
use starknet_operators.Kubernetes.Client.{Kube, Answer, ok, err, HasConditions, KeepsStatus}
use starknet_operators.V1alpha1.{StarknetRpc}
use starknet_operators.Pass.{
  Object, of_job, Entry, Pass, M, Reply, object_of, create, get, pvc_stored, job_stored,
}
use starknet_operators.Controller.Manifest.Storage.{get_wanted_restore_pvc}
use starknet_operators.Controller.Manifest.RestoreJob.{get_wanted_restore_job}
use starknet_operators.Controller.Pvc.{is_ready, ensure_pvc_ready}
use starknet_operators.Controller.Restore.{
  restore_done, is_disabled, judge_job, after_create_job, run_job, after_ensure, after_get_pvc,
  fetch_pvc, after_create_pvc, start, reconcile_archive_restore, mark_archive_as_finished,
  mark_restore_as_failed, mark_restore_as_progressing, failed_condition, progressing_condition,
}
use starknet_operators.Policy.{last_sent}

abbrev IsFinished : Option Object → Type 0
IsFinished (some (of_job job)) = ltb 0 job.succeeded ≡ true
IsFinished _ = ⊥

-- The call before the latest one was answered with a job that has succeeded.
abbrev pub HasFinishedJob : List Entry → Type 0
HasFinishedJob (_ ∷ e ∷ _) = IsFinished e.sent
HasFinishedJob _ = ⊥

module _ {k : Kube} (conditions : HasConditions k) (status : KeepsStatus k) where
  -- If the restore is done, a finished job was read.
  abbrev IsEarned : Pass k → Type 0
  IsEarned p = restore_done k p.rpc ≡ true → HasFinishedJob p.calls

  judge_job-IsEarned :
      (a : Answer k.Fault Job) (p : Pass k)
      → restore_done k p.rpc ≡ false
      → last_sent p.calls ≡ object_of of_job a
      → IsEarned (judge_job {k = k} a p).1
  unfolding judge_job mark_archive_as_finished mark_restore_as_failed
  judge_job-IsEarned a p undone sent = ground (
    arith,
    conditions.is_true-set p.rpc.status.conditions failed_condition "Restore",
    status.echo (mark_restore_as_failed k p.rpc) p.world,
  )

  after_create_job-IsEarned :
      (wanted : Job) (a : Answer k.Fault Job) (p : Pass k)
      → restore_done k p.rpc ≡ false
      → IsEarned (after_create_job {k = k} wanted a p).1
  unfolding after_create_job mark_restore_as_progressing get
  after_create_job-IsEarned wanted (ok job) p undone = ground (
    arith,
    conditions.is_true-set p.rpc.status.conditions progressing_condition "Restore",
    status.echo (mark_restore_as_progressing k p.rpc) p.world,
  )
  after_create_job-IsEarned wanted (err f) p undone = elim (Bool-cases (k.is_already_exists f)) [
    | inl e ↦
        let key = object_key wanted.meta in
        rw e
          (judge_job-IsEarned (k.jobs.get key p.world).0 (get {k = k} k.jobs key p).1 undone refl)
    | inr e ↦ rw e (λ h. ground arith)
  ]

  run_job-IsEarned : (p : Pass k) → restore_done k p.rpc ≡ false → IsEarned (run_job {k = k} p).1
  unfolding run_job create
  run_job-IsEarned p undone =
      let job = get_wanted_restore_job p.rpc in
      after_create_job-IsEarned job (k.jobs.create job p.world).0 (create {k = k} k.jobs job p).1
        undone

  after_ensure-IsEarned :
      (reply : Reply k.Fault) (p : Pass k)
      → restore_done k p.rpc ≡ false
      → IsEarned (after_ensure {k = k} reply p).1
  unfolding after_ensure
  after_ensure-IsEarned reply p undone = ground (arith, run_job-IsEarned p undone)

  ensure_pvc_ready-undone :
      (p : Pass k)
      → restore_done k p.rpc ≡ false
      → restore_done k (ensure_pvc_ready {k = k} p).1.rpc ≡ false
  unfolding ensure_pvc_ready
  ensure_pvc_ready-undone p undone = ground arith

  continue-IsEarned :
      {A : Type 0} (o : Outcome A) (q : Pass k) (f : A → M k (Reply k.Fault))
      → restore_done k q.rpc ≡ false
      → ((a : A) (t : Pass k) → restore_done k t.rpc ≡ false → IsEarned (f a t).1)
      → IsEarned (continue o f q).1
  continue-IsEarned panic q f undone keep = λ h. ground arith
  continue-IsEarned (ret a) q f undone keep = keep a q undone

  -- A run of the rest that earns it does so after any outcome of the first part.
  >>=-IsEarned :
      {A : Type 0} (m : M k A) (f : A → M k (Reply k.Fault)) (p : Pass k)
      → restore_done k (m p).1.rpc ≡ false
      → ((a : A) (q : Pass k) → restore_done k q.rpc ≡ false → IsEarned (f a q).1)
      → IsEarned ((m >>= f) p).1
  >>=-IsEarned m f p undone keep = continue-IsEarned (m p).0 (m p).1 f undone keep

  after_get_pvc-IsEarned :
      (a : Answer k.Fault Pvc) (p : Pass k)
      → restore_done k p.rpc ≡ false
      → IsEarned (after_get_pvc {k = k} a p).1
  unfolding after_get_pvc
  after_get_pvc-IsEarned (err f) p undone = ground arith
  after_get_pvc-IsEarned (ok pvc) p undone = elim (Bool-cases (is_ready pvc)) [
    | inl e ↦ rw e (
        >>=-IsEarned ensure_pvc_ready after_ensure p (ensure_pvc_ready-undone p undone)
          after_ensure-IsEarned)
    | inr e ↦ rw e (λ h. ground arith)
  ]

  fetch_pvc-IsEarned :
      (pvc : Pvc) (p : Pass k) → restore_done k p.rpc ≡ false → IsEarned (fetch_pvc {k = k} pvc p).1
  unfolding fetch_pvc get
  fetch_pvc-IsEarned pvc p undone =
      let key = object_key pvc.meta in
      after_get_pvc-IsEarned (k.pvcs.get key p.world).0 (get {k = k} k.pvcs key p).1 undone

  after_create_pvc-IsEarned :
      (wanted : Pvc) (a : Answer k.Fault Pvc) (p : Pass k)
      → restore_done k p.rpc ≡ false
      → IsEarned (after_create_pvc {k = k} wanted a p).1
  unfolding after_create_pvc
  after_create_pvc-IsEarned wanted (ok pvc) p undone = fetch_pvc-IsEarned pvc p undone
  after_create_pvc-IsEarned wanted (err f) p undone = elim (Bool-cases (k.is_already_exists f)) [
    | inl e ↦ rw e (fetch_pvc-IsEarned wanted p undone)
    | inr e ↦ rw e (λ h. ground arith)
  ]

  start-IsEarned :
      (cluster : StarknetRpc) (p : Pass k)
      → restore_done k p.rpc ≡ false
      → IsEarned (start {k = k} cluster p).1
  unfolding start create
  start-IsEarned cluster p undone =
      let pvc = get_wanted_restore_pvc cluster in
      after_create_pvc-IsEarned pvc (k.pvcs.create pvc p.world).0 (create {k = k} k.pvcs pvc p).1
        undone

  -- If the conditions and the status behave as documented, the restore is not disabled and not
  -- done, and the handler of the restore leaves it done in the copy of the run, then the call
  -- before its latest one was answered with a job that has a succeeded pod: whatever the server
  -- answers, a restore that is wanted is marked as done only after such a job was read.
  pub restored-HasFinishedJob :
      (p : Pass k)
      → restore_done k p.rpc ≡ false
      → is_disabled p.rpc.spec.restore_archive.enable ≡ false
      → restore_done k (reconcile_archive_restore {k = k} p).1.rpc ≡ true
      → HasFinishedJob (reconcile_archive_restore {k = k} p).1.calls
  unfolding reconcile_archive_restore
  restored-HasFinishedJob p undone wanted = rw (undone, wanted) (start-IsEarned p.rpc p undone)
