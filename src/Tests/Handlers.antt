-- ===== src/Tests/Handlers.antt =====
-- The theorems at work on the server of the tests: handlers and their parts.
use starknet_operators.Prelude.{◌≡◌, refl, false, none, [], ◌∷◌}
use starknet_operators.Prelude.StringMap.{agrees}
use starknet_operators.Prog.{panic}
use starknet_operators.Kubernetes.Core.{Job}
use starknet_operators.Kubernetes.Monitoring.{PodMonitorObject}
use starknet_operators.Pass.{Pass, done, pod_stored}
use starknet_operators.Condition.Restore
use starknet_operators.Controller.Manifest.Names.{get_pod_name}
use starknet_operators.Controller.Manifest.Storage.{get_wanted_pvc, get_wanted_restore_pvc}
use starknet_operators.Controller.Manifest.RestoreJob.{get_wanted_restore_job}
use starknet_operators.Controller.Manifest.RpcPod.{get_wanted_pod}
use starknet_operators.Controller.Manifest.Monitor.{get_wanted_pod_monitor, get_pod_monitor_labels}
use starknet_operators.Controller.Pvc.{reconcile_pvc}
use starknet_operators.Controller.Restore.{
  restore_done, reconcile_archive_restore, mark_archive_as_finished,
}
use starknet_operators.Controller.PodMonitor.{reconcile_pod_monitor}
use starknet_operators.Controller.PodMonitor.NilPort.{reconcile_pod_monitor-panics}
use starknet_operators.Phases.Reset.{reconcile_pvc-resets}
use starknet_operators.Phases.Finished.{HasFinishedJob, restored-HasFinishedJob}
use starknet_operators.Tests.Server.{World, Fault, server, lax_server, conditions, status}
use starknet_operators.Tests.Data.{node, restored, unrestored, fresh, with_claims, running, holding}

reconcile_pvc-resets_example :
    let p = holding (node restored) (fresh (node restored)) in
    (restore_done server (reconcile_pvc {k = server} p).1.rpc ≡ false)
    × ((reconcile_pvc {k = server} p).1.rpc.spec ≡ (node restored).spec)
unfolding reconcile_pvc restored Restore.apply
reconcile_pvc-resets_example =
    reconcile_pvc-resets {k = server} conditions status
      (holding (node restored) (fresh (node restored))) (get_wanted_pvc (node restored)) done refl
      refl refl

-- A job that failed once and then succeeded.
abbrev retried_job : Job
retried_job = record {
  meta = record {
    name = "alpha-archive-restore-job";
    namespace = "nodes";
    uid = "";
    labels = none;
    annotations = none;
    owner_references = [];
  };
  template = record {
    restart_policy = "Never";
    containers = [];
    volumes = [];
    tolerations = [];
    security_context = none;
  };
  succeeded = 1;
  failed = 1;
}

-- The PodMonitor of the node, whose endpoint has no port name any more.
abbrev port_lost : PodMonitorObject → PodMonitorObject
port_lost m = record m {
  spec = record m.spec {
    pod_metrics_endpoints = record { port = none; path = "/metrics"; others = [] } ∷ [];
  };
}

unfoldable with_broken_monitor : World
unfolding get_wanted_pod_monitor
with_broken_monitor = record (running (node restored)) {
  pod_monitors = port_lost (get_wanted_pod_monitor (node restored)) ∷ [];
}

abbrev broken_pass : Pass lax_server
broken_pass = record { world = with_broken_monitor; rpc = node restored; calls = [] }

reconcile_pod_monitor-panics_example :
    (reconcile_pod_monitor {k = lax_server} broken_pass).0 ≡ panic
unfolding with_broken_monitor running get_wanted_pod get_wanted_pod_monitor get_pod_name
    get_pod_monitor_labels agrees
reconcile_pod_monitor-panics_example =
    let pod = get_wanted_pod (node restored) in
    reconcile_pod_monitor-panics {k = lax_server} broken_pass
      (record pod { status = record pod.status { phase = "Running" } })
      (port_lost (get_wanted_pod_monitor (node restored)))
      (record { port = none; path = "/metrics"; others = [] }) Fault.already_exists refl refl refl
      refl refl refl refl refl

-- The job of the node has succeeded.
unfoldable with_done_job : World
unfolding get_wanted_restore_job
with_done_job = record (with_claims (node unrestored)) {
  jobs = record (get_wanted_restore_job (node unrestored)) { succeeded = 1 } ∷ [];
}

restored-HasFinishedJob_example :
    HasFinishedJob
      (reconcile_archive_restore {k = server} (holding (node unrestored) with_done_job)).1.calls
unfolding reconcile_archive_restore with_done_job with_claims unrestored get_wanted_pvc
    get_wanted_restore_pvc get_wanted_restore_job Restore.apply mark_archive_as_finished
restored-HasFinishedJob_example =
    restored-HasFinishedJob {k = server} conditions status (holding (node unrestored) with_done_job)
      refl refl refl
