-- ===== src/Controller/PodMonitor.antt =====
-- internal/controller/starknetrpc_podmonitor.go: the PodMonitor of the pod is kept as wanted, or
-- removed where monitoring is off.
pub mod Update
pub mod NilPort
pub mod Labels
pub mod Current
use starknet_operators.Prelude.{
  String, ◌<>◌, Bool, true, false, ◌&&◌, Option, none, some, List, [], ◌∷◌, ◌==◌, nat_eq, length,
  if◌then◌else◌,
}
use starknet_operators.Prelude.StringMap.{StringMap, copy, agrees}
use starknet_operators.Prog.{Outcome, ret, panic, pure, ◌>>=◌, ◌>>◌}
use starknet_operators.Kubernetes.Core.{Pod}
use starknet_operators.Kubernetes.Monitoring.{
  PodMonitorObject, PodMonitorSpec, PodMetricsEndpoint, LabelSelector,
}
use starknet_operators.Kubernetes.Client.{Kube, Answer, ok, err}
use starknet_operators.V1alpha1.{StarknetRpc, PodMonitor}
use starknet_operators.Pass.{
  M, Error, api, failed_to_delete, Reply, done, failed_with, current, get, delete, record_event,
  pod_stored, pod_monitor_stored,
}
use starknet_operators.Reconciler.{Created, create_or_reconcile}
use starknet_operators.Reconciler.Loop.{ObjectReconcilier}
use starknet_operators.Controller.Manifest.Names.{get_pod_name, get_pod_monitor_name}
use starknet_operators.Controller.Manifest.Monitor.{
  get_pod_monitor_spec, get_pod_monitor_labels, get_wanted_pod_monitor,
}

-- Reading a nil map is reading an empty one.
abbrev pub or_nil : Option StringMap → StringMap
or_nil none = []
or_nil (some m) = m

-- `*current.Port != *want.Port || current.Path != want.Path`, negated; a nil port panics.
abbrev same_endpoint : PodMetricsEndpoint → PodMetricsEndpoint → Outcome Bool
same_endpoint current want = elim current.port [
  | none ↦ panic
  | some port ↦ elim want.port [
    | none ↦ panic
    | some wanted ↦ ret (port == wanted && current.path == want.path)
  ]
]

-- The first endpoints are compared if both lists have one.
abbrev same_first : List PodMetricsEndpoint → List PodMetricsEndpoint → Outcome Bool
same_first [] _ = ret true
same_first (_ ∷ _) [] = ret true
same_first (current ∷ _) (want ∷ _) = same_endpoint current want

abbrev same_selector : LabelSelector → LabelSelector → Bool
same_selector current expected =
    nat_eq (length current.match_labels) (length expected.match_labels)
    && agrees expected.match_labels current.match_labels
    && nat_eq (length current.match_expressions) (length expected.match_expressions)

abbrev if_same : Outcome Bool → Bool → Outcome Bool
if_same panic rest = panic
if_same (ret same) rest = ret (same && rest)

abbrev same_spec : PodMonitorSpec → PodMonitorSpec → Outcome Bool
same_spec current expected =
    if nat_eq (length current.pod_metrics_endpoints) (length expected.pod_metrics_endpoints)
    then if_same (same_first current.pod_metrics_endpoints expected.pod_metrics_endpoints)
        (same_selector current.selector expected.selector)
    else ret false

-- The two fields of `PodMonitorSpecReconciler`.
unfoldable pub monitor_is_up_to_date : StarknetRpc → PodMonitorObject → Outcome Bool
unfolding get_pod_monitor_spec get_pod_monitor_labels agrees
monitor_is_up_to_date rpc monitor =
    if agrees (get_pod_monitor_labels rpc) (or_nil monitor.meta.labels)
    then same_spec monitor.spec (get_pod_monitor_spec rpc)
    else ret false

unfoldable pub update_monitor :
    {F : Type 0} → StarknetRpc → PodMonitorObject → Outcome (PodMonitorObject × Option (Error F))
unfolding get_pod_monitor_spec get_pod_monitor_labels copy
update_monitor rpc monitor = ret (
  record monitor {
    spec = get_pod_monitor_spec rpc;
    meta = record monitor.meta {
      labels = some (copy (or_nil monitor.meta.labels) (get_pod_monitor_labels rpc));
    };
  },
  none,
)

abbrev pub pod_monitor_spec_reconciler :
    {F : Type 0} → StarknetRpc → ObjectReconcilier F PodMonitorObject
pod_monitor_spec_reconciler rpc = record {
  name = "PodMonitorSpecReconciler";
  is_up_to_date = monitor_is_up_to_date rpc;
  update = update_monitor rpc;
}

-- cluster.Spec.PodMonitor != nil && cluster.Spec.PodMonitor.Enabled
abbrev pub is_monitored : Option PodMonitor → Bool
is_monitored none = false
is_monitored (some monitor) = monitor.enabled

-- `apierrs.IsNotFound(err)`: the kind may not be installed.
abbrev after_failure : (k : Kube) → Error k.Fault → Reply k.Fault
after_failure k (api f) = if k.is_not_found f then done else failed_with (api f)
after_failure k e = failed_with e

module _ {k : Kube} where
  after_delete : String → Answer k.Fault (Unit {0}) → M k (Reply k.Fault)
  unfolding record_event
  after_delete name (err f) = pure (failed_with (failed_to_delete f))
  after_delete name (ok _) = do
    record_event (record {
      reason = "PodMonitorDeleted";
      note = "PodMonitor " <> (name <> " deleted as monitoring is disabled");
    })
    pure done

  -- Any error of the lookup means that there is nothing to delete.
  after_lookup : Answer k.Fault PodMonitorObject → M k (Reply k.Fault)
  unfolding after_delete delete
  after_lookup (err _) = pure done
  after_lookup (ok existing) = do
    answer ← delete k.pod_monitors existing none
    after_delete existing.meta.name answer

  unfoldable pub remove_monitor : StarknetRpc → M k (Reply k.Fault)
  unfolding after_lookup get get_pod_monitor_name
  remove_monitor cluster = do
    answer ← get k.pod_monitors (get_pod_monitor_name cluster)
    after_lookup answer

  announce : Bool → String → M k (Reply k.Fault)
  unfolding record_event
  announce false name = pure done
  announce true name = do
    record_event (record {
      reason = "PodMonitorCreated";
      note = "PodMonitor " <> (name <> " created for monitoring");
    })
    pure done

  unfoldable pub after_create : Created k.Fault PodMonitorObject → M k (Reply k.Fault)
  unfolding announce
  after_create c = elim c.error [
    | some e ↦ pure (after_failure k e)
    | none ↦ announce c.created c.object.meta.name
  ]

  unfoldable pub after_get_pod : StarknetRpc → Answer k.Fault Pod → M k (Reply k.Fault)
  unfolding after_create create_or_reconcile monitor_is_up_to_date update_monitor
  after_get_pod cluster (err f) = if k.is_not_found f then pure done else pure (failed_with (api f))
  after_get_pod cluster (ok _) = do
    c ←
        create_or_reconcile k.pod_monitors (get_wanted_pod_monitor cluster)
          (pod_monitor_spec_reconciler cluster ∷ [])
    after_create c

  unfoldable pub keep_monitor : StarknetRpc → M k (Reply k.Fault)
  unfolding after_get_pod get get_pod_name
  keep_monitor cluster = do answer ← get k.pods (get_pod_name cluster); after_get_pod cluster answer

  unfoldable pub reconcile_pod_monitor : M k (Reply k.Fault)
  unfolding remove_monitor keep_monitor
  reconcile_pod_monitor = do
    cluster ← current
    if is_monitored cluster.spec.pod_monitor then keep_monitor cluster else remove_monitor cluster
