-- ===== src/History/Settles.antt =====
-- A restore whose job has finished is completed by the next run, and the run after it creates the pod.
use starknet_operators.Prelude.{
  arith, ◌≡◌, refl, ap, ◌∙◌, Bool, true, false, ltb, List, [], ◌∷◌, none, some,
}
use starknet_operators.Prog.{Outcome, ret, ◌>>=◌}
use starknet_operators.Kubernetes.Meta.{NamespacedName, Condition, background, object_key}
use starknet_operators.Kubernetes.Core.{Pvc, Job}
use starknet_operators.Kubernetes.Client.{Kube, Answer, ok, err, HasConditions, KeepsStatus}
use starknet_operators.V1alpha1.{StarknetRpc}
use starknet_operators.Pass.{
  of_pvc, of_job, Call, create_call, get_call, pvc_kind, rpc_kind, Pass, Reply, again,
  after_seconds, create, get, pvc_stored, job_stored, begin, get_rpc,
}
use starknet_operators.Condition.Initialize.{initialize_if, initialize}
use starknet_operators.Controller.Manifest.Names.{get_storage_pvc_name}
use starknet_operators.Controller.Manifest.Storage.{get_wanted_pvc, get_wanted_restore_pvc}
use starknet_operators.Controller.Manifest.RestoreJob.{get_wanted_restore_job}
use starknet_operators.Controller.Pvc.{is_ready, ensure_pvc_ready, reconcile_pvc}
use starknet_operators.Controller.Restore.{
  restore_done, is_disabled, judge_job, after_create_job, run_job, after_get_pvc, fetch_pvc,
  after_create_pvc, start, reconcile_archive_restore, mark_archive_as_finished, finished_condition,
}
use starknet_operators.Controller.Reconcile.{
  after_initialize, after_fetch, restore_stage, pvc_stage, reconcile,
}
use starknet_operators.Phases.Gate.{creates_pod}
use starknet_operators.Phases.Progress.{IsGone, IsAccepted, done-creates_pod}
use starknet_operators.History.Replay.{perform}
use starknet_operators.History.Runs.{sends_status}

abbrev pub IsExisting : {A : Type 0} (k : Kube) → Answer k.Fault A → Type 0
IsExisting k (ok _) = ⊥
IsExisting k (err f) = k.is_already_exists f ≡ true

abbrev pub IsBound : {F : Type 0} → Answer F Pvc → Type 0
IsBound (ok x) = is_ready x ≡ true
IsBound (err _) = ⊥

abbrev pub IsFinished : {F : Type 0} → Answer F Job → Type 0
IsFinished (ok job) = ltb 0 job.succeeded ≡ true
IsFinished (err _) = ⊥

abbrev pub has_conditions : List Condition → Bool
has_conditions [] = false
has_conditions (_ ∷ _) = true

abbrev pub IsWanted : (k : Kube) → Bool → Answer k.Fault StarknetRpc → Type 0
IsWanted k done (ok r) =
    (restore_done k r ≡ done)
    × (is_disabled r.spec.restore_archive.enable ≡ false)
    × (has_conditions r.status.conditions ≡ true)
IsWanted k done (err _) = ⊥

-- A server that has all that the restore of a resource waits for, until the restore is done.
pub record Serves (k : Kube) (name : NamespacedName) (done : k.World → Bool) : Type 0 where
  pub sends : (w : k.World) → IsWanted k (done w) (k.get_rpc name w).0
  pub leaves : (c : Call) (w : k.World) → sends_status c ≡ false → done (perform k c w) ≡ done w
  pub accepts : (r : StarknetRpc) (w : k.World) → IsAccepted (k.update_status r w).0
  pub writes :
      (r : StarknetRpc) (w : k.World)
      → restore_done k r ≡ true
      → done (k.update_status r w).1 ≡ true
  pub claims : (x : Pvc) (w : k.World) → IsExisting k (k.pvcs.create x w).0
  pub bound : (n : NamespacedName) (w : k.World) → done w ≡ false → IsBound (k.pvcs.get n w).0
  pub started : (x : Job) (w : k.World) → done w ≡ false → IsExisting k (k.jobs.create x w).0
  pub finished : (n : NamespacedName) (w : k.World) → done w ≡ false → IsFinished (k.jobs.get n w).0
  pub job_gone : (x : Job) (w : k.World) → IsGone k (k.jobs.delete x (some background) w).0
  pub pvc_gone : (x : Pvc) (w : k.World) → IsGone k (k.pvcs.delete x none w).0

module _ {k : Kube} (name : NamespacedName) (done : k.World → Bool) (server : Serves k name done)
    (conditions : HasConditions k) where
  -- The handler asks for another run, and the server has the restore as done.
  abbrev Settles : Outcome (Reply k.Fault) × Pass k → Type 0
  Settles r = (r.0 ≡ ret (again (after_seconds 1))) × (done r.1.world ≡ true)

  judge_job-Settles :
      (a : Answer k.Fault Job) (p : Pass k) → IsFinished a → Settles (judge_job {k = k} a p)
  unfolding judge_job mark_archive_as_finished
  judge_job-Settles a p finished = ground (
    arith,
    conditions.is_true-set p.rpc.status.conditions finished_condition "Restore",
    server.accepts (mark_archive_as_finished k p.rpc) p.world,
    server.writes (mark_archive_as_finished k p.rpc) p.world,
  )

  after_create_job-Settles :
      (wanted : Job) (a : Answer k.Fault Job) (p : Pass k)
      → IsExisting k a
      → done p.world ≡ false
      → Settles (after_create_job {k = k} wanted a p)
  unfolding after_create_job get
  after_create_job-Settles wanted (ok job) p there undone = absurd there
  after_create_job-Settles wanted (err f) p there undone =
      let key = object_key wanted.meta in
      rw there (
        judge_job-Settles (k.jobs.get key p.world).0 (get {k = k} k.jobs key p).1
          (server.finished key p.world undone))

  run_job-Settles : (p : Pass k) → done p.world ≡ false → Settles (run_job {k = k} p)
  unfolding run_job create
  run_job-Settles p undone =
      let job = get_wanted_restore_job p.rpc in
      after_create_job-Settles job (k.jobs.create job p.world).0 (create {k = k} k.jobs job p).1
        (server.started job p.world undone)
        (server.leaves (create_call (of_job job)) p.world refl ∙ undone)

  after_get_pvc-Settles :
      (a : Answer k.Fault Pvc) (p : Pass k)
      → IsBound a
      → done p.world ≡ false
      → Settles (after_get_pvc {k = k} a p)
  unfolding after_get_pvc ensure_pvc_ready get
  after_get_pvc-Settles (err f) p bound undone = absurd bound
  after_get_pvc-Settles (ok pvc) p bound undone =
      let key = get_storage_pvc_name p.rpc in
      let q = (get {k = k} k.pvcs key p).1 in
      ground (
        arith,
        bound,
        server.bound key p.world undone,
        run_job-Settles q (server.leaves (get_call pvc_kind key) p.world refl ∙ undone),
      )

  fetch_pvc-Settles :
      (pvc : Pvc) (p : Pass k) → done p.world ≡ false → Settles (fetch_pvc {k = k} pvc p)
  unfolding fetch_pvc get
  fetch_pvc-Settles pvc p undone =
      let key = object_key pvc.meta in
      after_get_pvc-Settles (k.pvcs.get key p.world).0 (get {k = k} k.pvcs key p).1
        (server.bound key p.world undone)
        (server.leaves (get_call pvc_kind key) p.world refl ∙ undone)

  after_create_pvc-Settles :
      (wanted : Pvc) (a : Answer k.Fault Pvc) (p : Pass k)
      → IsExisting k a
      → done p.world ≡ false
      → Settles (after_create_pvc {k = k} wanted a p)
  unfolding after_create_pvc
  after_create_pvc-Settles wanted (ok pvc) p there undone = absurd there
  after_create_pvc-Settles wanted (err f) p there undone =
      rw there (fetch_pvc-Settles wanted p undone)

  start-Settles :
      (cluster : StarknetRpc) (p : Pass k)
      → done p.world ≡ false
      → Settles (start {k = k} cluster p)
  unfolding start create
  start-Settles cluster p undone =
      let pvc = get_wanted_restore_pvc cluster in
      after_create_pvc-Settles pvc (k.pvcs.create pvc p.world).0 (create {k = k} k.pvcs pvc p).1
        (server.claims pvc p.world) (server.leaves (create_call (of_pvc pvc)) p.world refl ∙ undone)

  restore_stage-settles :
      (p : Pass k)
      → restore_done k p.rpc ≡ false
      → is_disabled p.rpc.spec.restore_archive.enable ≡ false
      → done p.world ≡ false
      → done (restore_stage {k = k} p).1.world ≡ true
  unfolding restore_stage reconcile_archive_restore
  restore_stage-settles p undone wanted undone' =
      let settled = start-Settles p.rpc p undone' in rw (undone, wanted, settled.0) settled.1

  -- The claim exists, so the run goes on with the restore.
  pvc_stage-restores :
      (p : Pass k)
      → pvc_stage {k = k} p
        ≡ restore_stage {k = k} (create {k = k} k.pvcs (get_wanted_pvc p.rpc) p).1
  unfolding pvc_stage reconcile_pvc create
  pvc_stage-restores p = ground (arith, server.claims (get_wanted_pvc p.rpc) p.world)

  initialized-restores :
      (cs : List Condition) (p : Pass k)
      → has_conditions cs ≡ true
      → (initialize_if {k = k} cs >>= after_initialize) p ≡ pvc_stage {k = k} p
  initialized-restores [] p given = ground arith
  initialized-restores (c ∷ cs) p given = refl

  -- What a run does after the fetch and the creation of the claim.
  abbrev claimed_pass : StarknetRpc → k.World → Pass k
  claimed_pass r w =
      (create {k = k} k.pvcs (get_wanted_pvc r)
        (record (get_rpc {k = k} name (begin w)).1 { rpc = r })).1

  reconcile-restores :
      (w : k.World) (r : StarknetRpc)
      → (k.get_rpc name w).0 ≡ ok r
      → has_conditions r.status.conditions ≡ true
      → reconcile {k = k} name (begin w) ≡ restore_stage {k = k} (claimed_pass r w)
  unfolding reconcile after_fetch get_rpc initialize
  reconcile-restores w r sent given =
      let p = record (get_rpc {k = k} name (begin w)).1 { rpc = r } in
      ap (λ a. after_fetch {k = k} a (get_rpc {k = k} name (begin w)).1) sent
      ∙ initialized-restores r.status.conditions p given
      ∙ pvc_stage-restores p

  claimed_pass-done : (w : k.World) (r : StarknetRpc) → done (claimed_pass r w).world ≡ done w
  unfolding create get_rpc
  claimed_pass-done w r =
      server.leaves (create_call (of_pvc (get_wanted_pvc r))) (k.get_rpc name w).1 refl
      ∙ server.leaves (get_call rpc_kind name) w refl

  run-settles :
      (w : k.World) (a : Answer k.Fault StarknetRpc)
      → (k.get_rpc name w).0 ≡ a
      → IsWanted k (done w) a
      → done w ≡ false
      → done (reconcile {k = k} name (begin w)).1.world ≡ true
  unfolding create get_rpc
  run-settles w (err f) sent wanted undone = absurd wanted
  run-settles w (ok r) sent (same, enabled, given) undone =
      ap (λ t. done t.1.world) (reconcile-restores w r sent given)
      ∙ restore_stage-settles (claimed_pass r w) (same ∙ undone) enabled
          (claimed_pass-done w r ∙ undone)

  module _ (status : KeepsStatus k) where
    run-creates_pod :
        (w : k.World) (a : Answer k.Fault StarknetRpc)
        → (k.get_rpc name w).0 ≡ a
        → IsWanted k (done w) a
        → done w ≡ true
        → creates_pod (reconcile {k = k} name (begin w)).1.calls ≡ true
    unfolding create get_rpc
    run-creates_pod w (err f) sent wanted finished = absurd wanted
    run-creates_pod w (ok r) sent (same, enabled, given) finished =
        ap (λ t. creates_pod t.1.calls) (reconcile-restores w r sent given)
        ∙ done-creates_pod conditions status (claimed_pass r w) (same ∙ finished) server.job_gone
            server.pvc_gone

    -- If a server sends a resource with conditions and with its restore not disabled, accepts
    -- every status, and has, until the restore is done, all that it waits for, that is the
    -- claims, bound, and the job, with a succeeded pod, then from a world where the restore is
    -- not done one run leaves it done at the server, and the run after that one creates the pod,
    -- or tries to.
    pub restore-settles :
        (w : k.World)
        → done w ≡ false
        → (done (reconcile {k = k} name (begin w)).1.world ≡ true)
          × (creates_pod
                (reconcile {k = k} name (begin (reconcile {k = k} name (begin w)).1.world)).1.calls
              ≡ true)
    restore-settles w undone =
        let u = (reconcile {k = k} name (begin w)).1.world in
        let settled = run-settles w (k.get_rpc name w).0 refl (server.sends w) undone in
        (settled, run-creates_pod u (k.get_rpc name u).0 refl (server.sends u) settled)
