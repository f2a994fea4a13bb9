-- ===== src/Tests/Histories.antt =====
-- The server of the tests over several runs: it holds the resource, and a run whose job has
-- succeeded marks the restore as done.
use starknet_operators.Prelude.{arith, ◌≡◌, refl, Bool, false, Option, none, some, [], ◌∷◌}
use starknet_operators.Kubernetes.Meta.{NamespacedName}
use starknet_operators.V1alpha1.{StarknetRpc}
use starknet_operators.Pass.{
  of_pod, of_pvc, of_job, of_pod_monitor, pod_kind, pvc_kind, job_kind, pod_monitor_kind, rpc_kind,
  Call, create_call, get_call, update_call, delete_call, update_status_call, proxy_call, event_call,
  begin,
}
use starknet_operators.Controller.Manifest.RestoreJob.{get_wanted_restore_job}
use starknet_operators.Controller.Restore.{restore_done, is_disabled}
use starknet_operators.Controller.Reconcile.{reconcile}
use starknet_operators.History.Replay.{perform}
use starknet_operators.History.Runs.{View, sends_status}
use starknet_operators.Tests.Server.{World, server, find}
use starknet_operators.Tests.Data.{request, node, unrestored, with_claims}

abbrev pub done_of : Option StarknetRpc → Bool
done_of none = false
done_of (some r) = restore_done server r

abbrev disabled_of : Option StarknetRpc → Bool
disabled_of none = false
disabled_of (some r) = is_disabled r.spec.restore_archive.enable

abbrev pub held : NamespacedName → View server
held n = record {
  done = λ w. done_of (find (λ x. x.meta) n w.rpcs);
  disabled = λ w. disabled_of (find (λ x. x.meta) n w.rpcs);
}

pub leaves_lem :
    (n : NamespacedName) (c : Call) (w : World)
    → sends_status c ≡ false
    → (held n).done (perform server c w) ≡ (held n).done w
leaves_lem n (update_status_call r) w e = ground arith
leaves_lem n (create_call (of_pod x)) w e = ground arith
leaves_lem n (create_call (of_pvc x)) w e = ground arith
leaves_lem n (create_call (of_job x)) w e = ground arith
leaves_lem n (create_call (of_pod_monitor x)) w e = ground arith
leaves_lem n (get_call pod_kind m) w e = refl
leaves_lem n (get_call pvc_kind m) w e = refl
leaves_lem n (get_call job_kind m) w e = refl
leaves_lem n (get_call pod_monitor_kind m) w e = refl
leaves_lem n (get_call rpc_kind m) w e = refl
leaves_lem n (update_call (of_pod x)) w e = ground arith
leaves_lem n (update_call (of_pvc x)) w e = ground arith
leaves_lem n (update_call (of_job x)) w e = ground arith
leaves_lem n (update_call (of_pod_monitor x)) w e = ground arith
leaves_lem n (delete_call (of_pod x) o) w e = ground arith
leaves_lem n (delete_call (of_pvc x) o) w e = ground arith
leaves_lem n (delete_call (of_job x) o) w e = ground arith
leaves_lem n (delete_call (of_pod_monitor x) o) w e = ground arith
leaves_lem n (proxy_call q) w e = refl
leaves_lem n (event_call q) w e = refl

-- The job of the resource has succeeded.
unfoldable finished_world : World
unfolding with_claims get_wanted_restore_job unrestored
finished_world =
    let w = with_claims (node unrestored) in
    record w { jobs = record (get_wanted_restore_job (node unrestored)) { succeeded = 1 } ∷ [] }

unfoldable restored_world : World
unfolding finished_world reconcile
restored_world = (reconcile {k = server} request (begin finished_world)).1.world
