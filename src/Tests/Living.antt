-- ===== src/Tests/Living.antt =====
-- A server that keeps only the phase of its one resource, and a course of events on it.

use starknet_operators.Prelude.{◌∷◌, [], arith, ◌≡◌, refl, sym, ap, ◌∙◌, true, false, if◌then◌else◌}
use starknet_operators.Kubernetes.Core.{Pvc, Job}
use starknet_operators.Kubernetes.Client.{
  Kube, Resource, Answer, ok, err, HasConditions, KeepsStatus,
}
use starknet_operators.V1alpha1.{StarknetRpc}
use starknet_operators.Pass.{begin}
use starknet_operators.Controller.Manifest.Storage.{get_wanted_pvc, get_wanted_restore_pvc}
use starknet_operators.Controller.Manifest.RestoreJob.{get_wanted_restore_job}
use starknet_operators.Controller.Manifest.RpcPod.{get_wanted_pod}
use starknet_operators.Controller.Manifest.Monitor.{get_wanted_pod_monitor}
use starknet_operators.Controller.Pvc.{is_ready}
use starknet_operators.Controller.Restore.{restore_done}
use starknet_operators.Controller.Reconcile.{reconcile}
use starknet_operators.Tests.Suffix.{ends_so, storage-ends_so, restore-ends_so}
use starknet_operators.Phases.Gate.{creates_pod}
use starknet_operators.History.Settles.{IsFinished}
use starknet_operators.History.Life.{
  Phase, fresh, stored, claimed, bound, running, finished, restored, is_fresh, is_stored, is_bound,
  has_bound, Follows, IsSent, IsNew, IsUnfinished,
}
use starknet_operators.History.Arrives.{reconcile-advances}
use mathlib.Core.List.{Sublistᴰ}
use starknet_operators.Pass.{Call}
use starknet_operators.History.Replay.{perform}
use starknet_operators.History.Remains.{sends_undone}
use starknet_operators.History.Life.{advance}
use starknet_operators.History.Course.{
  run, help, pause, ripen, needed, Course, over, ran, helped, paused, Course-turns,
  Course-creates_pod,
}
use starknet_operators.Tests.Server.{server, conditions}
use starknet_operators.Tests.Data
use starknet_operators.Tests.Data.{request, node, unrestored}
use starknet_operators.Tests.Settling.{bound_claim, finished_job}

abbrev holding : Phase → StarknetRpc
holding fresh = node []
holding restored = node Data.restored
holding _ = node unrestored

abbrev create_storage : Pvc → Phase → Answer (Unit {0}) Pvc × Phase
create_storage x fresh = (ok x, stored)
create_storage x φ = (err tt, φ)

abbrev create_scratch : Pvc → Phase → Answer (Unit {0}) Pvc × Phase
create_scratch x stored = (ok x, claimed)
create_scratch x φ = (err tt, φ)

abbrev create_job : Job → Phase → Answer (Unit {0}) Job × Phase
create_job x bound = (ok x, running)
create_job x φ = (err tt, φ)

abbrev claim_of : Phase → Pvc
claim_of φ = if has_bound φ then bound_claim else get_wanted_pvc (node [])

abbrev job_of : Phase → Job
job_of finished = finished_job
job_of _ = get_wanted_restore_job (node [])

abbrev quiet : {T : Type 0} → T → Resource Phase (Unit {0}) T
quiet x = record {
  create = λ y w. (ok y, w);
  get = λ n w. (ok x, w);
  update = λ y w. (ok y, w);
  delete = λ y o w. (ok tt, w);
}

abbrev living_server : Kube
living_server = record {
  World = Phase;
  Fault = Unit {0};
  is_not_found = λ f. true;
  is_already_exists = λ f. true;
  is_bad_request = λ f. false;
  is_service_unavailable = λ f. false;
  pods = quiet (get_wanted_pod (node []));
  pvcs = record (quiet bound_claim) {
    create = λ x w. if ends_so x.meta.name then create_storage x w else create_scratch x w;
    get = λ n w. (ok (claim_of w), w);
  };
  jobs = record (quiet finished_job) { create = create_job; get = λ n w. (ok (job_of w), w) };
  pod_monitors = quiet (get_wanted_pod_monitor (node []));
  get_rpc = λ n w. (ok (holding w), w);
  update_status = λ r w. (ok r, if restore_done server r then restored else w);
  proxy_get = λ q w. (ok tt, w);
  record_event = λ e w. w;
  set_status_condition = server.set_status_condition;
  is_status_condition_true = server.is_status_condition_true;
}

living_conditions : HasConditions living_server
living_conditions = record { is_true-set = conditions.is_true-set }

living_status : KeepsStatus living_server
living_status = record { echo = λ r w. (refl, refl) }

living-sends : (w : Phase) → IsSent living_server w (ok (holding w))
unfolding Data.restored unrestored
living-sends fresh = (refl, refl, refl)
living-sends stored = (refl, refl, refl)
living-sends claimed = (refl, refl, refl)
living-sends bound = (refl, refl, refl)
living-sends running = (refl, refl, refl)
living-sends finished = (refl, refl, refl)
living-sends restored = (refl, refl, refl)

living-storage :
    (r : StarknetRpc) (w : Phase)
    → IsNew living_server (is_fresh w) (living_server.pvcs.create (get_wanted_pvc r) w).0
      × ((living_server.pvcs.create (get_wanted_pvc r) w).1 ≡ (if is_fresh w then stored else w))
unfolding get_wanted_pvc
living-storage r w = ground (arith, storage-ends_so r.meta.name)

living-scratch :
    (r : StarknetRpc) (w : Phase)
    → is_fresh w ≡ false
    → IsNew living_server (is_stored w) (living_server.pvcs.create (get_wanted_restore_pvc r) w).0
      × ((living_server.pvcs.create (get_wanted_restore_pvc r) w).1
          ≡ (if is_stored w then claimed else w))
unfolding get_wanted_restore_pvc
living-scratch r w begun = ground (arith, restore-ends_so r.meta.name)

living-job :
    (x : Job) (w : Phase)
    → has_bound w ≡ true
    → IsNew living_server (is_bound w) (create_job x w).0
      × ((create_job x w).1 ≡ (if is_bound w then running else w))
living-job x w has_claims = ground arith

living-unbound : (w : Phase) → w ≡ claimed → is_ready (claim_of w) ≡ false
unfolding is_ready get_wanted_pvc
living-unbound w e = rw e

living-binds : (w : Phase) → has_bound w ≡ true → is_ready (claim_of w) ≡ true
unfolding is_ready
living-binds w e = rw e

living-runs : (w : Phase) → w ≡ running → IsUnfinished (living_server.jobs.get request w).0
unfolding get_wanted_restore_job
living-runs w e = rw e (refl, refl)

living-finishes : (w : Phase) → w ≡ finished → IsFinished (living_server.jobs.get request w).0
living-finishes w e = rw e refl

living-stays :
    (c : Call) (w : Phase)
    → w ≡ restored
    → sends_undone living_server c ≡ false
    → perform living_server c w ≡ restored
living-stays c w e kept = ground arith

living_server-Follows : Follows living_server request (λ w. w)
living_server-Follows = record {
  sends = living-sends;
  fetches = λ w. refl;
  accepts = λ r w. tt;
  writes = λ r w e. refl;
  stays = living-stays;
  storage = living-storage;
  scratch = living-scratch;
  reads_pvc = λ n w. refl;
  unbound = λ n w. living-unbound w;
  binds = λ n w. living-binds w;
  job = living-job;
  reads_job = λ n w. refl;
  runs = λ n w. living-runs w;
  finishes = λ n w. living-finishes w;
  job_gone = λ x w. tt;
  pvc_gone = λ x w. tt;
}

abbrev after : Phase → Phase
after w = (reconcile {k = living_server} request (begin w)).1.world

after_lem : (w : Phase) → after w ≡ advance w
after_lem =
    reconcile-advances request (λ w. w) living_server-Follows living_conditions living_status

living-Course :
    Course living_server request
      (λ w. w)
      fresh
      (pause ∷ run ∷ help ∷ run ∷ run ∷ help ∷ run ∷ [])
      (after finished)
living-Course =
    let end = after finished in
    let last = ran finished end [] (over end) in
    let finishes = sym (ap ripen (after_lem (after bound) ∙ ap advance (after_lem bound))) in
    let second = helped (after (after bound)) finished end (run ∷ []) finishes last in
    let idle = ran (after bound) end (help ∷ run ∷ []) second in
    let starts = ran bound end (run ∷ help ∷ run ∷ []) idle in
    let binds = sym (ap ripen (after_lem fresh)) in
    let first = helped (after fresh) bound end (run ∷ run ∷ help ∷ run ∷ []) binds starts in
    paused fresh fresh end (run ∷ help ∷ run ∷ run ∷ help ∷ run ∷ []) refl
      (ran fresh end (help ∷ run ∷ run ∷ help ∷ run ∷ []) first)

needed-part : Sublistᴰ needed (pause ∷ run ∷ help ∷ run ∷ run ∷ help ∷ run ∷ [])
needed-part =
    let rest = Sublistᴰ.cons-cons refl (Sublistᴰ.cons-cons refl Sublistᴰ.slnil) in
    let second = Sublistᴰ.cons-cons refl (Sublistᴰ.cons rest) in
    Sublistᴰ.cons (Sublistᴰ.cons-cons refl (Sublistᴰ.cons-cons refl second))

Course-turns_example : after finished ≡ restored
Course-turns_example =
    Course-turns request (λ w. w) living_server-Follows living_conditions living_status fresh
      (after finished) (pause ∷ run ∷ help ∷ run ∷ run ∷ help ∷ run ∷ []) living-Course

Course-creates_pod_example :
    creates_pod (reconcile {k = living_server} request (begin (after finished))).1.calls ≡ true
Course-creates_pod_example =
    Course-creates_pod request (λ w. w) living_server-Follows living_conditions living_status fresh
      (after finished) (pause ∷ run ∷ help ∷ run ∷ run ∷ help ∷ run ∷ []) living-Course needed-part
