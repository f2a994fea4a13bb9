-- ===== src/Policy/Monitor.antt =====
-- The calls of the PodMonitor's handler.
use starknet_operators.Prelude.{arith, refl, ◌≡◌, true, false, [], ◌∷◌, Bool-cases, inl, inr}
use starknet_operators.Kubernetes.Client.{Kube, Answer, ok, err}
use starknet_operators.Kubernetes.Core.{Pod}
use starknet_operators.Kubernetes.Monitoring.{PodMonitorObject}
use starknet_operators.Pass.{Pass, object_of, of_pod, get, pod_stored, pod_monitor_stored}
use starknet_operators.Prog.{>>=-keeps}
use starknet_operators.Controller.Manifest.Names.{get_pod_name}
use starknet_operators.Reconciler.{Created, create_or_reconcile}
use starknet_operators.Controller.Manifest.Monitor.{get_wanted_pod_monitor}
use starknet_operators.Controller.PodMonitor.{
  is_monitored, remove_monitor, after_create, after_get_pod, keep_monitor, reconcile_pod_monitor,
  pod_monitor_spec_reconciler,
}
use starknet_operators.Controller.PodMonitor.Update.{monitor-AreCoherent}
use starknet_operators.Reconciler.Coherence.{changed-stale}
use starknet_operators.Policy.Create.{create_or_reconcile-Obeys}
use starknet_operators.Policy.{Obeys, IsPod, last_sent}

module _ {k : Kube} where
  after_create-Obeys :
      (c : Created k.Fault PodMonitorObject) (p : Pass k)
      → Obeys p
      → Obeys (after_create {k = k} c p).1
  unfolding after_create
  after_create-Obeys c p h = ground arith

module _ {k : Kube} (p : Pass k) where
  remove_monitor-Obeys :
      Obeys p → is_monitored p.rpc.spec.pod_monitor ≡ false → Obeys (remove_monitor p.rpc p).1
  unfolding remove_monitor
  remove_monitor-Obeys h e = ground arith

  create_monitor-Obeys :
      Obeys p
      → is_monitored p.rpc.spec.pod_monitor ≡ true
      → IsPod (last_sent p.calls)
      → Obeys
          (create_or_reconcile {k = k} k.pod_monitors
            (get_wanted_pod_monitor p.rpc)
            (pod_monitor_spec_reconciler p.rpc ∷ [])
            p).1
  create_monitor-Obeys h e seen =
      create_or_reconcile-Obeys k.pod_monitors _ (monitor-AreCoherent p.rpc) p
        (λ y z c a. (changed-stale (pod_monitor_spec_reconciler p.rpc) y z c, a.0))
        (get_wanted_pod_monitor p.rpc) (refl, e, seen) h

  after_get_pod-Obeys :
      (a : Answer k.Fault Pod)
      → Obeys p
      → is_monitored p.rpc.spec.pod_monitor ≡ true
      → last_sent p.calls ≡ object_of of_pod a
      → Obeys (after_get_pod {k = k} p.rpc a p).1
  unfolding after_get_pod
  after_get_pod-Obeys (err f) h e seen = ground arith
  after_get_pod-Obeys (ok pod) h e seen =
      >>=-keeps {P = Obeys}
        (create_or_reconcile {k = k} k.pod_monitors (get_wanted_pod_monitor p.rpc)
          (pod_monitor_spec_reconciler p.rpc ∷ []))
        after_create p (create_monitor-Obeys h e (rw seen tt)) after_create-Obeys

module _ {k : Kube} (p : Pass k) where
  pub reconcile_pod_monitor-Obeys : Obeys p → Obeys (reconcile_pod_monitor p).1
  unfolding reconcile_pod_monitor keep_monitor get
  reconcile_pod_monitor-Obeys h = elim (Bool-cases (is_monitored p.rpc.spec.pod_monitor)) [
    | inl e ↦
        let key = get_pod_name p.rpc in
        rw e (
          after_get_pod-Obeys (get {k = k} k.pods key p).1 (k.pods.get key p.world).0 (tt, h) e
            refl)
    | inr e ↦ rw e (remove_monitor-Obeys p h e)
  ]
