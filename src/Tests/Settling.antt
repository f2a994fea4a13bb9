-- ===== src/Tests/Settling.antt =====
-- A server where all that a restore waits for is there; it keeps only whether the restore is done.
use starknet_operators.Prelude.{arith, ◌≡◌, refl, Bool, true, false, ◌||◌, if◌then◌else◌, []}
use starknet_operators.Kubernetes.Core.{Pvc, Job}
use starknet_operators.Kubernetes.Client.{Kube, Resource, ok, err, HasConditions, KeepsStatus}
use starknet_operators.V1alpha1.{StarknetRpc}
use starknet_operators.Pass.{Call, begin}
use starknet_operators.Controller.Manifest.Storage.{get_wanted_pvc}
use starknet_operators.Controller.Manifest.RestoreJob.{get_wanted_restore_job}
use starknet_operators.Controller.Manifest.RpcPod.{get_wanted_pod}
use starknet_operators.Controller.Manifest.Monitor.{get_wanted_pod_monitor}
use starknet_operators.Controller.Pvc.{is_ready}
use starknet_operators.Controller.Restore.{restore_done}
use starknet_operators.Controller.Reconcile.{reconcile}
use starknet_operators.Phases.Gate.{creates_pod}
use starknet_operators.History.Replay.{perform}
use starknet_operators.History.Runs.{sends_status}
use starknet_operators.Prog.{ret}
use starknet_operators.Pass.{terminate_loop}
use starknet_operators.Controller.Reconcile.{broken}
use starknet_operators.History.Fails.{Fails, SendsFailure, failed_job-is_reported}
use starknet_operators.History.Settles.{Serves, restore-settles}
use starknet_operators.Tests.Server.{server, conditions}
use starknet_operators.Phases.Disabled.{Obliges, disabled_run-creates_pod}
use starknet_operators.Tests.Data.{request, node, bare_node, restored, unrestored}

-- Everything exists already; what is read is this, and nothing is refused.
abbrev full : {T : Type 0} → T → Resource Bool (Unit {0}) T
full x = record {
  create = λ y w. (err tt, w);
  get = λ n w. (ok x, w);
  update = λ y w. (ok y, w);
  delete = λ y o w. (ok tt, w);
}

abbrev held_node : Bool → StarknetRpc
held_node done = node (if done then restored else unrestored)

abbrev pub bound_claim : Pvc
bound_claim = record (get_wanted_pvc (node [])) { phase = "Bound" }

abbrev pub finished_job : Job
finished_job = record (get_wanted_restore_job (node [])) { succeeded = 1 }

abbrev full_server : Kube
full_server = record {
  World = Bool;
  Fault = Unit {0};
  is_not_found = λ f. true;
  is_already_exists = λ f. true;
  is_bad_request = λ f. false;
  is_service_unavailable = λ f. false;
  pods = record (full (get_wanted_pod (node []))) { create = λ y w. (ok y, w) };
  pvcs = full bound_claim;
  jobs = full finished_job;
  pod_monitors = full (get_wanted_pod_monitor (node []));
  get_rpc = λ n w. (ok (held_node w), w);
  update_status = λ r w. (ok r, restore_done server r || w);
  proxy_get = λ q w. (ok tt, w);
  record_event = λ e w. w;
  set_status_condition = server.set_status_condition;
  is_status_condition_true = server.is_status_condition_true;
}

full_conditions : HasConditions full_server
full_conditions = record { is_true-set = conditions.is_true-set }

full_status : KeepsStatus full_server
full_status = record { echo = λ r w. (refl, refl) }

full-leaves : (c : Call) (w : Bool) → sends_status c ≡ false → perform full_server c w ≡ w
full-leaves c w e = ground arith

full_server-Serves : Serves full_server request (λ w. w)
unfolding restored unrestored is_ready
full_server-Serves = record {
  sends = λ w. ground arith;
  leaves = full-leaves;
  accepts = λ r w. tt;
  writes = λ r w e. ground arith;
  claims = λ x w. refl;
  bound = λ n w e. refl;
  started = λ x w e. refl;
  finished = λ n w e. refl;
  job_gone = λ x w. tt;
  pvc_gone = λ x w. tt;
}

restore-settles_example :
    ((reconcile {k = full_server} request (begin false)).1.world ≡ true)
    × (creates_pod
          (reconcile {k = full_server} request
            (begin (reconcile {k = full_server} request (begin false)).1.world)).1.calls
        ≡ true)
restore-settles_example =
    restore-settles request (λ w. w) full_server-Serves full_conditions full_status false refl

-- The same, for a resource whose restore is switched off.
abbrev bare_server : Kube
bare_server = record full_server { get_rpc = λ n w. (ok (bare_node unrestored), w) }

bare_conditions : HasConditions bare_server
bare_conditions = record { is_true-set = conditions.is_true-set }

bare_status : KeepsStatus bare_server
bare_status = record { echo = λ r w. (refl, refl) }

bare_server-Obliges : Obliges bare_server
bare_server-Obliges = record {
  makes = λ x w. refl;
  accepts = λ r w. tt;
  job_gone = λ x w. tt;
  pvc_gone = λ x w. tt;
}

disabled_run-creates_pod_example :
    creates_pod (reconcile {k = bare_server} request (begin false)).1.calls ≡ true
disabled_run-creates_pod_example =
    disabled_run-creates_pod bare_conditions bare_status bare_server-Obliges request false
      (bare_node unrestored) refl refl

-- The same, for a resource whose restore is wanted, and whose job has failed.
abbrev failed_job : Job
failed_job = record (get_wanted_restore_job (node [])) { failed = 1 }

abbrev failing_server : Kube
failing_server = record full_server {
  jobs = full failed_job;
  get_rpc = λ n w. (ok (node unrestored), w);
}

failing_conditions : HasConditions failing_server
failing_conditions = record { is_true-set = conditions.is_true-set }

failing_status : KeepsStatus failing_server
failing_status = record { echo = λ r w. (refl, refl) }

failing_server-Fails : Fails failing_server request
unfolding unrestored is_ready get_wanted_restore_job
failing_server-Fails = record {
  sends = λ w. (refl, refl, refl);
  accepts = λ r w. tt;
  claims = λ x w. refl;
  bound = λ n w. refl;
  started = λ x w. refl;
  failed = λ n w. (refl, refl);
}

failed_job-is_reported_example :
    let (outcome, after) = reconcile {k = failing_server} request (begin false) in
    (outcome ≡ ret (broken terminate_loop))
    × (restore_done failing_server after.rpc ≡ false)
    × SendsFailure failing_server after.calls
    × (creates_pod after.calls ≡ false)
failed_job-is_reported_example =
    failed_job-is_reported request failing_server-Fails failing_conditions failing_status false
