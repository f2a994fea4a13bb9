-- ===== src/Total/Monitor.antt =====
-- When the PodMonitor's handler returns.
use starknet_operators.Prelude.{arith, [], ◌∷◌, Bool-cases, inl, inr}
use starknet_operators.Prog.{Returns, >>=-Holds}
use starknet_operators.Kubernetes.Client.{Kube, Answer, ok, err}
use starknet_operators.V1alpha1.{StarknetRpc}
use starknet_operators.Kubernetes.Core.{Pod}
use starknet_operators.Kubernetes.Monitoring.{PodMonitorObject}
use starknet_operators.Pass.{Pass, get, pod_stored, pod_monitor_stored}
use starknet_operators.Reconciler.{Created, create_or_reconcile}
use starknet_operators.Reconciler.Loop.{reconcile_all}
use starknet_operators.Controller.Manifest.Names.{get_pod_name}
use starknet_operators.Controller.Manifest.Monitor.{get_wanted_pod_monitor}
use starknet_operators.Controller.PodMonitor.{
  pod_monitor_spec_reconciler, monitor_is_up_to_date, update_monitor, is_monitored, remove_monitor,
  after_create, after_get_pod, keep_monitor, reconcile_pod_monitor,
}
use starknet_operators.Total.{IsSound, NamesPort, Sends}
use starknet_operators.Total.Create.{IsFine, IsUsable, create_or_reconcile-Returns}

monitor_loop-Returns :
    (F : Type 0) (rpc : StarknetRpc) (monitor : PodMonitorObject)
    → NamesPort monitor
    → Returns
        (IsFine NamesPort)
        (reconcile_all {F = F} (pod_monitor_spec_reconciler rpc ∷ []) monitor)
unfolding reconcile_all monitor_is_up_to_date update_monitor
monitor_loop-Returns F rpc monitor h = ground arith

module _ {k : Kube} where
  remove_monitor-Returns :
      (rpc : StarknetRpc) (p : Pass k) → Returns IsSound (remove_monitor {k = k} rpc p).0
  unfolding remove_monitor
  remove_monitor-Returns rpc p = ground arith

  after_create-Returns :
      (c : Created k.Fault PodMonitorObject) (p : Pass k)
      → IsUsable NamesPort c
      → Returns IsSound (after_create {k = k} c p).0
  unfolding after_create
  after_create-Returns c p h = ground arith

  module _ (sends : Sends NamesPort k.pod_monitors) where
    after_get_pod-Returns :
        (rpc : StarknetRpc) (a : Answer k.Fault Pod) (p : Pass k)
        → Returns IsSound (after_get_pod {k = k} rpc a p).0
    unfolding after_get_pod
    after_get_pod-Returns rpc (err f) p = ground arith
    after_get_pod-Returns rpc (ok pod) p =
        >>=-Holds ⊥ (IsUsable NamesPort) IsSound
          (create_or_reconcile {k = k} k.pod_monitors (get_wanted_pod_monitor rpc)
            (pod_monitor_spec_reconciler rpc ∷ []))
          after_create p
          (create_or_reconcile-Returns NamesPort k.pod_monitors sends _
            (monitor_loop-Returns k.Fault rpc) p (get_wanted_pod_monitor rpc))
          after_create-Returns

    pub reconcile_pod_monitor-Returns :
        (p : Pass k) → Returns IsSound (reconcile_pod_monitor {k = k} p).0
    unfolding reconcile_pod_monitor keep_monitor get
    reconcile_pod_monitor-Returns p = elim (Bool-cases (is_monitored p.rpc.spec.pod_monitor)) [
      | inl e ↦
          let key = get_pod_name p.rpc in
          rw e (after_get_pod-Returns p.rpc (k.pods.get key p.world).0 (get {k = k} k.pods key p).1)
      | inr e ↦ rw e (remove_monitor-Returns p.rpc p)
    ]
