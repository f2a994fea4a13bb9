-- ===== src/Tests/Steady.antt =====
-- The theorems at work on a server on which all objects of a resource are there.
use starknet_operators.Prelude.{◌≡◌, refl, none, some, [], ◌∷◌}
use starknet_operators.Prog.{ret}
use starknet_operators.Kubernetes.Meta.{object_key, background}
use starknet_operators.Kubernetes.Core.{Pod}
use starknet_operators.Kubernetes.Client.{Kube, Resource, Answer, ok, err}
use starknet_operators.V1alpha1.{StarknetRpc}
use starknet_operators.Pass.{
  begin, no_result, create_call, get_call, delete_call, of_pod, of_pvc, of_job, rpc_kind, pod_kind,
  pod_monitor_kind,
}
use starknet_operators.Condition.Restore
use starknet_operators.Controller.Manifest.Names.{get_pod_monitor_name}
use starknet_operators.Controller.Manifest.Storage.{get_wanted_pvc, get_wanted_restore_pvc}
use starknet_operators.Controller.Manifest.RestoreJob.{get_wanted_restore_job}
use starknet_operators.Controller.Manifest.RpcPod.{get_wanted_pod}
use starknet_operators.Controller.Pod.{image_is_up_to_date, should_pod_get_recreated}
use starknet_operators.Controller.Reconcile.{finished, reconcile}
use starknet_operators.Phases.Steady.{calls_of, steady_run}
use starknet_operators.Tests.Server.{World, Fault, server}
use starknet_operators.Tests.Data.{request, node, restored, fresh}

-- Nothing can be created or updated; this is what a lookup gives, and there is nothing to delete.
abbrev still : {T : Type 0} → Answer Fault T → Resource World Fault T
still answer = record {
  create = λ x w. (err Fault.already_exists, w);
  get = λ n w. (answer, w);
  update = λ x w. (err Fault.invalid, w);
  delete = λ x o w. (err Fault.not_found, w);
}

-- The node without monitoring, its restore done.
unfoldable still_node : StarknetRpc
unfolding restored
still_node = let n = node restored in record n { spec = record n.spec { pod_monitor = none } }

unfoldable still_pod : Pod
unfolding get_wanted_pod still_node
still_pod = get_wanted_pod still_node

abbrev still_server : Kube
still_server = record server {
  get_rpc = λ n w. (ok still_node, w);
  pvcs = still (err Fault.not_found);
  jobs = still (err Fault.not_found);
  pods = still (ok still_pod);
  pod_monitors = still (err Fault.not_found);
}

steady_run_example :
    let run = reconcile {k = still_server} request (begin (fresh still_node)) in
    (run.0 ≡ ret (finished no_result))
    × (calls_of run.1
        ≡ get_call pod_monitor_kind (get_pod_monitor_name still_node)
          ∷ get_call pod_kind (object_key (get_wanted_pod still_node).meta)
          ∷ create_call (of_pod (get_wanted_pod still_node))
          ∷ delete_call (of_pvc (get_wanted_restore_pvc still_node)) none
          ∷ delete_call (of_job (get_wanted_restore_job still_node)) (some background)
          ∷ create_call (of_pvc (get_wanted_pvc still_node))
          ∷ get_call rpc_kind request
          ∷ [])
unfolding still_node still_pod restored get_wanted_pod image_is_up_to_date should_pod_get_recreated
    Restore.apply
steady_run_example =
    steady_run still_server still_node still_pod (Restore.as_condition Restore.success) []
      Fault.already_exists Fault.not_found refl refl (λ n w. refl) (λ x w. refl) (λ x w. refl)
      (λ x w. refl) (λ x w. refl) (λ n w. refl) (λ n w. refl) refl refl refl refl refl refl request
      (fresh still_node)
