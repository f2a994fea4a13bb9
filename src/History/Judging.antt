-- ===== src/History/Judging.antt =====
-- The restore job, in each phase in which the claims are bound.
use starknet_operators.Prelude.{arith, ◌≡◌, refl, ap, ◌∙◌, true, false, if◌then◌else◌}
use starknet_operators.Kubernetes.Meta.{NamespacedName, object_key}
use starknet_operators.Kubernetes.Core.{Job}
use starknet_operators.Kubernetes.Client.{Kube, Answer, ok, err, HasConditions, KeepsStatus}
use starknet_operators.Pass.{Pass, create, get, pvc_stored, job_stored}
use starknet_operators.Controller.Manifest.RestoreJob.{get_wanted_restore_job}
use starknet_operators.Controller.Restore.{
  judge_job, after_create_job, run_job, mark_archive_as_finished, finished_condition,
  mark_restore_as_progressing, progressing_condition,
}
use starknet_operators.History.Settles.{IsExisting}
use starknet_operators.History.Life.{
  Phase, is_restored, fresh, stored, claimed, bound, running, finished, restored, is_bound,
  has_bound, advance, Follows, IsNew, Retries, IsJudged,
}

module _ {k : Kube} (name : NamespacedName) (phase : k.World → Phase)
    (server : Follows k name phase) (conditions : HasConditions k) (status : KeepsStatus k) where
  pub judge_job-Retries :
      (a : Answer k.Fault Job) (φ : Phase) (p : Pass k)
      → phase p.world ≡ φ
      → IsJudged φ a
      → Retries phase (advance φ) (judge_job {k = k} a p)
  unfolding judge_job mark_archive_as_finished
  judge_job-Retries a running p at judged = ground (arith, judged)
  judge_job-Retries a finished p at judged =
      let marked = mark_archive_as_finished k p.rpc in
      ground (
        arith,
        judged,
        conditions.is_true-set p.rpc.status.conditions finished_condition "Restore",
        server.accepts marked p.world,
        server.writes marked p.world (ap is_restored at),
      )
  judge_job-Retries a fresh p at judged = elim judged [ ]
  judge_job-Retries a stored p at judged = elim judged [ ]
  judge_job-Retries a claimed p at judged = elim judged [ ]
  judge_job-Retries a bound p at judged = elim judged [ ]
  judge_job-Retries a restored p at judged = elim judged [ ]

  pub get-IsJudged :
      (φ : Phase) (n : NamespacedName) (w : k.World)
      → phase w ≡ φ
      → has_bound φ ≡ true
      → is_bound φ ≡ false
      → IsJudged φ (k.jobs.get n w).0
  get-IsJudged running n w at has_claims started = server.runs n w at
  get-IsJudged finished n w at has_claims started = server.finishes n w at
  get-IsJudged bound n w at has_claims started = absurd (cc)
  get-IsJudged fresh n w at has_claims started = absurd (cc)
  get-IsJudged stored n w at has_claims started = absurd (cc)
  get-IsJudged claimed n w at has_claims started = absurd (cc)
  get-IsJudged restored n w at has_claims started = absurd (cc)

  -- The job was there.
  pub existing_job-Retries :
      (φ : Phase) (wanted : Job) (a : Answer k.Fault Job) (p : Pass k)
      → IsExisting k a
      → phase p.world ≡ φ
      → has_bound φ ≡ true
      → is_bound φ ≡ false
      → Retries phase (advance φ) (after_create_job {k = k} wanted a p)
  unfolding after_create_job get
  existing_job-Retries φ wanted (ok job) p there at has_claims started = absurd there
  existing_job-Retries φ wanted (err f) p there at has_claims started =
      let n = object_key wanted.meta in
      rw there (
        judge_job-Retries (k.jobs.get n p.world).0 φ (get {k = k} k.jobs n p).1
          (server.reads_job n p.world ∙ at) (get-IsJudged φ n p.world at has_claims started))

  -- The job is new.
  pub new_job-Retries :
      (wanted : Job) (a : Answer k.Fault Job) (p : Pass k)
      → IsNew k true a
      → phase p.world ≡ running
      → Retries phase running (after_create_job {k = k} wanted a p)
  unfolding after_create_job mark_restore_as_progressing
  new_job-Retries wanted (ok job) p new at =
      let marked = mark_restore_as_progressing k p.rpc in
      ground (
        arith,
        conditions.is_true-set p.rpc.status.conditions progressing_condition "Restore",
        server.accepts marked p.world,
        server.writes marked p.world (ap is_restored at),
      )
  new_job-Retries wanted (err f) p new at = absurd new

  pub job_answer :
      (φ : Phase) (x : Job) (w : k.World)
      → phase w ≡ φ
      → has_bound φ ≡ true
      → IsNew k (is_bound φ) (k.jobs.create x w).0
        × (phase (k.jobs.create x w).1 ≡ (if is_bound φ then running else φ))
  job_answer φ x w at has_claims =
      let answer = server.job x w (ap has_bound at ∙ has_claims) in rw at at answer

  pub run_job-Retries :
      (φ : Phase) (p : Pass k)
      → phase p.world ≡ φ
      → has_bound φ ≡ true
      → Retries phase (advance φ) (run_job {k = k} p)
  unfolding run_job create
  run_job-Retries bound p at has_claims =
      let x = get_wanted_restore_job p.rpc in
      let (made, moved) = job_answer bound x p.world at has_claims in
      new_job-Retries x (k.jobs.create x p.world).0 (create {k = k} k.jobs x p).1 made moved
  run_job-Retries running p at has_claims =
      let x = get_wanted_restore_job p.rpc in
      let (there, same) = job_answer running x p.world at has_claims in
      existing_job-Retries running x (k.jobs.create x p.world).0 (create {k = k} k.jobs x p).1 there
        same refl refl
  run_job-Retries finished p at has_claims =
      let x = get_wanted_restore_job p.rpc in
      let (there, same) = job_answer finished x p.world at has_claims in
      existing_job-Retries finished x (k.jobs.create x p.world).0 (create {k = k} k.jobs x p).1
        there same refl refl
  run_job-Retries fresh p at has_claims = absurd (cc)
  run_job-Retries stored p at has_claims = absurd (cc)
  run_job-Retries claimed p at has_claims = absurd (cc)
  run_job-Retries restored p at has_claims = absurd (cc)
