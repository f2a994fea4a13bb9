-- ===== src/Tests/Examples.antt =====
-- The theorems at work on the server of the tests: whole runs.
use starknet_operators.Phases.Calls.{reconcile-calls_bounded}
use starknet_operators.Prelude.{length, ◌≤◌, ◌≡◌, refl, true, false, [], All}
use starknet_operators.Prog.{Returns, Ends}
use starknet_operators.Phases.Delay.{IsPaced, reconcile-Ends}
use starknet_operators.Pass.{Entry, begin, no_result}
use starknet_operators.Condition.Available
use starknet_operators.Condition.Restore
use starknet_operators.Controller.Manifest.Storage.{get_wanted_pvc, get_wanted_restore_pvc}
use starknet_operators.Controller.Manifest.RpcPod.{get_wanted_pod}
use starknet_operators.Controller.Manifest.Monitor.{get_wanted_pod_monitor}
use starknet_operators.Controller.Reconcile.{finished, restore_stage, pvc_stage, reconcile}
use starknet_operators.Reconciler.Loop.{reconcile_all}
use starknet_operators.Proxy.{probe}
use starknet_operators.Policy.{Obeys}
use starknet_operators.Policy.Run.{reconcile-Obeys}
use starknet_operators.Policy.Claims.{KeepsStorage, reconcile-KeepsStorage}
use starknet_operators.Total.Run.{IsReported, reconcile-Returns}
use starknet_operators.Phases.Gate.{creates_pod, restore_stage-waits, fresh_claim-waits}
use starknet_operators.Phases.Idle.{idle-creates_pod}
use starknet_operators.Tests.Server.{server, conditions, status, pods-Sends, pod_monitors-Sends}
use starknet_operators.Tests.Data.{
  request, node, restored, unrestored, fresh, with_claims, running, holding,
}

reconcile-Obeys_example : Obeys (reconcile {k = server} request (begin (fresh (node [])))).1
reconcile-Obeys_example = reconcile-Obeys {k = server} request (begin (fresh (node []))) tt

reconcile-Returns_example :
    Returns IsReported (reconcile {k = server} request (begin (running (node restored)))).0
reconcile-Returns_example =
    reconcile-Returns {k = server} pods-Sends pod_monitors-Sends request
      (begin (running (node restored)))

idle-creates_pod_example :
    creates_pod (reconcile {k = server} request (begin (running (node restored)))).1.calls ≡ true
unfolding reconcile restored running get_wanted_pvc get_wanted_pod get_wanted_pod_monitor
    reconcile_all probe Available.apply Restore.apply get_wanted_restore_pvc
idle-creates_pod_example =
    idle-creates_pod {k = server} request (begin (running (node restored))) (node restored)
      (finished no_result) refl refl (refl, refl)

reconcile-KeepsStorage_example :
    All
      (λ (e : Entry). KeepsStorage e.call)
      (reconcile {k = server} request (begin (running (node restored)))).1.calls
reconcile-KeepsStorage_example = reconcile-KeepsStorage server request (running (node restored))

fresh_claim-waits_example :
    creates_pod (pvc_stage {k = server} (holding (node restored) (fresh (node restored)))).1.calls
    ≡ false
fresh_claim-waits_example =
    fresh_claim-waits {k = server} conditions status
      (holding (node restored) (fresh (node restored))) (get_wanted_pvc (node restored)) refl refl

restore_stage-waits_example :
    creates_pod
      (restore_stage {k = server}
        (holding (node unrestored) (with_claims (node unrestored)))).1.calls
    ≡ false
unfolding unrestored Restore.apply
restore_stage-waits_example =
    restore_stage-waits {k = server} (holding (node unrestored) (with_claims (node unrestored)))
      (refl, refl)

reconcile-Ends_example :
    Ends IsPaced (reconcile {k = server} request (begin (with_claims (node unrestored)))).0
reconcile-Ends_example = reconcile-Ends {k = server} request (begin (with_claims (node unrestored)))

reconcile-calls_bounded_example :
    length (reconcile {k = server} request (begin (running (node restored)))).1.calls ≤ 15
reconcile-calls_bounded_example = reconcile-calls_bounded server request (running (node restored))
