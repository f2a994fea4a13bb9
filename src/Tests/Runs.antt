-- ===== src/Tests/Runs.antt =====
-- Runs of the reconciler on the server of the tests.
use starknet_operators.Prelude.{◌≡◌, refl, String, List, [], ◌∷◌, map}
use starknet_operators.Prog.{ret}
use starknet_operators.Pass.{
  Object, of_pod, of_pvc, of_job, of_pod_monitor, Call, create_call, get_call, update_call,
  delete_call, update_status_call, proxy_call, event_call, Entry, begin, no_result,
}
use starknet_operators.Condition.Available
use starknet_operators.Condition.Restore
use starknet_operators.Controller.Manifest.Storage.{get_wanted_pvc, get_wanted_restore_pvc}
use starknet_operators.Controller.Manifest.RestoreJob.{get_wanted_restore_job}
use starknet_operators.Controller.Manifest.RpcPod.{get_wanted_pod}
use starknet_operators.Controller.Manifest.Monitor.{get_wanted_pod_monitor}
use starknet_operators.Controller.Restore.{mark_restore_as_progressing}
use starknet_operators.Reconciler.Loop.{reconcile_all}
use starknet_operators.Proxy.{probe}
use starknet_operators.Controller.Reconcile.{finished, reconcile}
use starknet_operators.Tests.Server.{World, server}
use starknet_operators.Tests.Data.{request, node, restored, unrestored, fresh, with_claims, running}

abbrev kind_of : Object → String
kind_of (of_pod _) = "pod"
kind_of (of_pvc _) = "claim"
kind_of (of_job _) = "job"
kind_of (of_pod_monitor _) = "monitor"

abbrev verb : Call → String × String
verb (create_call x) = ("create", kind_of x)
verb (get_call _ n) = ("get", n.name)
verb (update_call x) = ("update", kind_of x)
verb (delete_call x _) = ("delete", kind_of x)
verb (update_status_call _) = ("status", "")
verb (proxy_call q) = ("probe", q.path)
verb (event_call e) = ("event", e.reason)

-- The calls of a run, the latest first.
unfoldable trace : World → List (String × String)
unfolding reconcile
trace w = map (λ (e : Entry). verb e.call) (reconcile {k = server} request (begin w)).1.calls

first_run :
    trace (fresh (node []))
    ≡ ("get", "alpha-archive-restore")
      ∷ ("create", "claim")
      ∷ ("status", "")
      ∷ ("create", "claim")
      ∷ ("status", "")
      ∷ ("get", "alpha")
      ∷ []
unfolding trace reconcile Available.apply Restore.apply get_wanted_pvc get_wanted_restore_pvc
    get_wanted_restore_job restored unrestored with_claims running get_wanted_pod
    get_wanted_pod_monitor mark_restore_as_progressing reconcile_all probe
first_run = refl

job_run :
    trace (with_claims (node unrestored))
    ≡ ("status", "")
      ∷ ("create", "job")
      ∷ ("get", "alpha-storage")
      ∷ ("get", "alpha-archive-restore")
      ∷ ("create", "claim")
      ∷ ("create", "claim")
      ∷ ("get", "alpha")
      ∷ []
unfolding trace reconcile Available.apply Restore.apply get_wanted_pvc get_wanted_restore_pvc
    get_wanted_restore_job restored unrestored with_claims running get_wanted_pod
    get_wanted_pod_monitor mark_restore_as_progressing reconcile_all probe
job_run = refl

quiet_run :
    (reconcile {k = server} request (begin (running (node restored)))).0 ≡ ret (finished no_result)
unfolding trace reconcile Available.apply Restore.apply get_wanted_pvc get_wanted_restore_pvc
    get_wanted_restore_job restored unrestored with_claims running get_wanted_pod
    get_wanted_pod_monitor mark_restore_as_progressing reconcile_all probe
quiet_run = refl
