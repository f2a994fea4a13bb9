-- ===== src/Controller/PodMonitor/NilPort.antt =====
-- A PodMonitor whose endpoint has no port name (PodMonitorSpecReconciler of
-- internal/controller/starknetrpc_podmonitor.go).
use starknet_operators.Prelude.{◌≡◌, refl, true, none, some, [], ◌∷◌}
use starknet_operators.Prelude.StringMap.{agrees}
use starknet_operators.Prog.{panic, >>=-panics}
use starknet_operators.Kubernetes.Meta.{object_key}
use starknet_operators.Kubernetes.Core.{Pod}
use starknet_operators.Kubernetes.Monitoring.{PodMonitorObject, PodMetricsEndpoint}
use starknet_operators.Kubernetes.Client.{Kube, ok, err}
use starknet_operators.V1alpha1.{StarknetRpc}
use starknet_operators.Pass.{Pass, get, get_call, pod_kind, of_pod, pod_stored, pod_monitor_stored}
use starknet_operators.Reconciler.{create_or_reconcile}
use starknet_operators.Reconciler.Steady.{create_or_reconcile-panics, reconcile_all-panics}
use starknet_operators.Controller.Manifest.Names.{get_pod_name}
use starknet_operators.Controller.Manifest.Monitor.{get_pod_monitor_labels, get_wanted_pod_monitor}
use starknet_operators.Controller.PodMonitor.{
  or_nil, is_monitored, monitor_is_up_to_date, reconcile_pod_monitor, after_create,
  pod_monitor_spec_reconciler,
}

module _ (rpc : StarknetRpc) (monitor : PodMonitorObject) (e : PodMetricsEndpoint) where
  monitor_is_up_to_date-panics :
      agrees (get_pod_monitor_labels rpc) (or_nil monitor.meta.labels) ≡ true
      → monitor.spec.pod_metrics_endpoints ≡ e ∷ []
      → e.port ≡ none
      → monitor_is_up_to_date rpc monitor ≡ panic
  unfolding monitor_is_up_to_date
  monitor_is_up_to_date-panics labels one nil = rw (labels, one, nil) refl

-- If monitoring is on, the pod is found, the creation of the PodMonitor is answered with "already
-- exists", and the PodMonitor that is then read has the wanted labels and a single endpoint
-- without a port name, then the handler of the PodMonitor panics.
pub reconcile_pod_monitor-panics :
    {k : Kube} (p : Pass k) (pod : Pod) (monitor : PodMonitorObject) (e : PodMetricsEndpoint)
    (f : k.Fault)
    → let wanted = get_wanted_pod_monitor p.rpc in
      let w = (k.pods.get (get_pod_name p.rpc) p.world).1 in
      is_monitored p.rpc.spec.pod_monitor ≡ true
      → (k.pods.get (get_pod_name p.rpc) p.world).0 ≡ ok pod
      → (k.pod_monitors.create wanted w).0 ≡ err f
      → k.is_already_exists f ≡ true
      → (k.pod_monitors.get (object_key wanted.meta) (k.pod_monitors.create wanted w).1).0
        ≡ ok monitor
      → agrees (get_pod_monitor_labels p.rpc) (or_nil monitor.meta.labels) ≡ true
      → monitor.spec.pod_metrics_endpoints ≡ e ∷ []
      → e.port ≡ none
      → (reconcile_pod_monitor {k = k} p).0 ≡ panic
unfolding reconcile_pod_monitor get
reconcile_pod_monitor-panics {k} p pod monitor e f monitored seen exists known found labels one
      nil =
    let name = get_pod_name p.rpc in
    let read : Pass k = record {
      world = (k.pods.get name p.world).1;
      rpc = p.rpc;
      calls =
          record { call = get_call pod_kind name; rpc = p.rpc; sent = some (of_pod pod) } ∷ p.calls;
    } in
    let stale = monitor_is_up_to_date-panics p.rpc monitor e labels one nil in
    rw (monitored, seen)
      (>>=-panics
        (create_or_reconcile {k = k} k.pod_monitors (get_wanted_pod_monitor p.rpc)
          (pod_monitor_spec_reconciler p.rpc ∷ []))
        after_create read
        (create_or_reconcile-panics k.pod_monitors (pod_monitor_spec_reconciler p.rpc ∷ []) read
          (get_wanted_pod_monitor p.rpc) monitor f exists known found
          (reconcile_all-panics (pod_monitor_spec_reconciler p.rpc) [] monitor stale)))
