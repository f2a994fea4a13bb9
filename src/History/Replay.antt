-- ===== src/History/Replay.antt =====
-- The log of a run is complete: the calls in it, made again in their order, leave the same world.
use starknet_operators.Prelude.{arith, ◌≡◌, refl, List, [], ◌∷◌}
use starknet_operators.Kubernetes.Meta.{NamespacedName}
use starknet_operators.Kubernetes.Client.{Kube}
use starknet_operators.Pass.{
  Object, of_pod, of_pvc, of_job, of_pod_monitor, Kind, pod_kind, pvc_kind, job_kind,
  pod_monitor_kind, rpc_kind, Call, create_call, get_call, update_call, delete_call,
  update_status_call, proxy_call, event_call, Entry, Pass, begin, get_rpc,
}
use starknet_operators.Condition.{StateTransition, set_phases}
use starknet_operators.Condition.Initialize.{initial_phases}
use starknet_operators.Controller.Pvc.{reconcile_pvc}
use starknet_operators.Controller.Restore.{reconcile_archive_restore}
use starknet_operators.Controller.Pod.{reconcile_pod}
use starknet_operators.Controller.PodMonitor.{reconcile_pod_monitor}
use starknet_operators.Controller.Reconcile.{reconcile}
use starknet_operators.Controller.Reconcile.Keeps.{after_fetch-keeps}

-- The world after one call.
module _ (k : Kube) where
  abbrev create_object : Object → k.World → k.World
  create_object (of_pod x) w = (k.pods.create x w).1
  create_object (of_pvc x) w = (k.pvcs.create x w).1
  create_object (of_job x) w = (k.jobs.create x w).1
  create_object (of_pod_monitor x) w = (k.pod_monitors.create x w).1

  abbrev get_object : Kind → NamespacedName → k.World → k.World
  get_object pod_kind n w = (k.pods.get n w).1
  get_object pvc_kind n w = (k.pvcs.get n w).1
  get_object job_kind n w = (k.jobs.get n w).1
  get_object pod_monitor_kind n w = (k.pod_monitors.get n w).1
  get_object rpc_kind n w = (k.get_rpc n w).1

  abbrev update_object : Object → k.World → k.World
  update_object (of_pod x) w = (k.pods.update x w).1
  update_object (of_pvc x) w = (k.pvcs.update x w).1
  update_object (of_job x) w = (k.jobs.update x w).1
  update_object (of_pod_monitor x) w = (k.pod_monitors.update x w).1

  abbrev pub perform : Call → k.World → k.World
  perform (create_call x) w = create_object x w
  perform (get_call kind n) w = get_object kind n w
  perform (update_call x) w = update_object x w
  perform (delete_call (of_pod x) o) w = (k.pods.delete x o w).1
  perform (delete_call (of_pvc x) o) w = (k.pvcs.delete x o w).1
  perform (delete_call (of_job x) o) w = (k.jobs.delete x o w).1
  perform (delete_call (of_pod_monitor x) o) w = (k.pod_monitors.delete x o w).1
  perform (update_status_call r) w = (k.update_status r w).1
  perform (proxy_call q) w = (k.proxy_get q w).1
  perform (event_call e) w = k.record_event e w

  -- The world after all calls of a log, the latest of which comes first.
  unfoldable pub replay : k.World → List Entry → k.World
  replay w [] = w
  replay w (e ∷ before) = perform e.call (replay w before)

module _ (k : Kube) (w : k.World) where
  abbrev IsFaithful : Pass k → Type 0
  IsFaithful p = replay k w p.calls ≡ p.world

  set_phases-IsFaithful :
      (ts : List StateTransition) (p : Pass k) → IsFaithful p → IsFaithful (set_phases ts p).1
  unfolding set_phases replay
  set_phases-IsFaithful ts p h = ground arith

  reconcile_pvc-IsFaithful : (p : Pass k) → IsFaithful p → IsFaithful (reconcile_pvc p).1
  unfolding reconcile_pvc replay
  reconcile_pvc-IsFaithful p h = ground arith

  restore-IsFaithful : (p : Pass k) → IsFaithful p → IsFaithful (reconcile_archive_restore p).1
  unfolding reconcile_archive_restore replay
  restore-IsFaithful p h = ground arith

  pod-IsFaithful : (p : Pass k) → IsFaithful p → IsFaithful (reconcile_pod p).1
  unfolding reconcile_pod replay
  pod-IsFaithful p h = ground arith

  monitor-IsFaithful : (p : Pass k) → IsFaithful p → IsFaithful (reconcile_pod_monitor p).1
  unfolding reconcile_pod_monitor replay
  monitor-IsFaithful p h = ground arith

  -- For every server, request and state of the server, the calls in the log of a run, made again
  -- in their order from the state in which the run started, leave the state in which the run
  -- ended: the log is complete, and a run does nothing to the server but these calls.
  pub reconcile-replays :
      (req : NamespacedName)
      → replay k w (reconcile req (begin {k = k} w)).1.calls
        ≡ (reconcile req (begin {k = k} w)).1.world
  unfolding reconcile get_rpc replay
  reconcile-replays req =
      after_fetch-keeps IsFaithful restore-IsFaithful (λ p h _. pod-IsFaithful p h)
        monitor-IsFaithful reconcile_pvc-IsFaithful (set_phases-IsFaithful (initial_phases k))
        (k.get_rpc req w).0 (get_rpc {k = k} req (begin w)).1 refl (λ rpc. refl)
