-- ===== src/Policy/Run.antt =====
-- The calls of the stages and of a whole run.

use starknet_operators.Kubernetes.Meta.{NamespacedName}
use starknet_operators.Kubernetes.Client.{Kube}
use starknet_operators.Pass.{Pass, get_rpc}
use starknet_operators.Condition.Initialize.{initial_phases}
use starknet_operators.Controller.Reconcile.{reconcile}
use starknet_operators.Controller.Reconcile.Keeps.{after_fetch-keeps}
use starknet_operators.Policy.{Obeys}
use starknet_operators.Policy.Pvc.{set_phases-Obeys, reconcile_pvc-Obeys}
use starknet_operators.Policy.Restore.{reconcile_archive_restore-Obeys}
use starknet_operators.Policy.Pod.{reconcile_pod-Obeys}
use starknet_operators.Policy.Monitor.{reconcile_pod_monitor-Obeys}

module _ {k : Kube} where
  -- For every server and every request, a run that starts with permitted calls makes only
  -- permitted calls, judged at each call by the copy of the resource that the run then holds: the
  -- pod is created as wanted and only once the restore is done; a claim is created as the wanted
  -- storage claim, or as the wanted scratch claim while a restore is wanted and not done; the job
  -- is created as wanted, while a restore is wanted and not done, right after two bound claims
  -- were read, the second of them under the name of the storage claim; the PodMonitor is created
  -- as wanted, where monitoring is on, right after a pod was read; a pod or a PodMonitor is
  -- updated only if the one just read is stale and the one sent is up to date; a pod is deleted
  -- only if it has to be recreated, the wanted scratch claim and the wanted job only once the
  -- restore is done, a PodMonitor only where monitoring is off and as it was just read; a status
  -- update sends the copy that the run holds.
  pub reconcile-Obeys : (req : NamespacedName) (p : Pass k) → Obeys p → Obeys (reconcile req p).1
  unfolding reconcile get_rpc
  reconcile-Obeys req p h =
      after_fetch-keeps Obeys reconcile_archive_restore-Obeys reconcile_pod-Obeys
        reconcile_pod_monitor-Obeys reconcile_pvc-Obeys (λ q. set_phases-Obeys q (initial_phases k))
        (k.get_rpc req p.world).0 (get_rpc {k = k} req p).1 (tt, h) (λ rpc. (tt, h))
