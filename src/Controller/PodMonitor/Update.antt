-- ===== src/Controller/PodMonitor/Update.antt =====
-- What the update of a PodMonitor leaves (PodMonitorSpecReconciler of
-- internal/controller/starknetrpc_podmonitor.go).
use starknet_operators.Prelude.{
  arith, ◌≡◌, refl, true, none, some, Option, eq_iff, inl, inr, Option-cases, [], ◌∷◌,
}
use starknet_operators.Prelude.StringMap.{
  StringMap, HasKeysOnce, copy, copy-HasKeysOnce, agrees, agrees-copy, agrees_self, lookup,
}
use starknet_operators.Prog.{ret}
use starknet_operators.Kubernetes.Monitoring.{PodMonitorObject}
use starknet_operators.V1alpha1.{StarknetRpc, PodMonitor}
use starknet_operators.Reconciler.Coherence.{AreCoherent}
use mathlib.Core.Path.{subst}
use starknet_operators.Controller.Manifest.Monitor.{
  operator_labels, copy_custom, get_pod_monitor_spec, get_pod_monitor_labels,
  get_wanted_pod_monitor,
}
use starknet_operators.Controller.PodMonitor.{
  monitor_is_up_to_date, update_monitor, or_nil, same_spec, pod_monitor_spec_reconciler,
}

operator_labels-HasKeysOnce : (rpc : StarknetRpc) → HasKeysOnce (operator_labels rpc)
unfolding operator_labels lookup
operator_labels-HasKeysOnce rpc = (refl, (refl, (refl, (refl, (refl, (refl, tt))))))

copy_custom-HasKeysOnce :
    (m : StringMap) (o : Option PodMonitor) → HasKeysOnce m → HasKeysOnce (copy_custom m o)
copy_custom-HasKeysOnce m none h = h
copy_custom-HasKeysOnce m (some monitor) h = elim (Option-cases monitor.labels) [
  | inl e ↦ rw e h
  | inr (custom, e) ↦ rw e (copy-HasKeysOnce m custom h)
]

-- The wanted labels are a map, whatever the custom labels.
pub labels-HasKeysOnce : (rpc : StarknetRpc) → HasKeysOnce (get_pod_monitor_labels rpc)
unfolding get_pod_monitor_labels
labels-HasKeysOnce rpc =
    copy_custom-HasKeysOnce (operator_labels rpc) rpc.spec.pod_monitor
      (operator_labels-HasKeysOnce rpc)

pub same_spec_self :
    (rpc : StarknetRpc) → same_spec (get_pod_monitor_spec rpc) (get_pod_monitor_spec rpc) ≡ ret true
unfolding get_pod_monitor_spec agrees
same_spec_self rpc = ground (arith, eq_iff rpc.meta.name rpc.meta.name)

-- The object after the update.
abbrev pub updated : StarknetRpc → PodMonitorObject → PodMonitorObject
updated rpc monitor = record monitor {
  spec = get_pod_monitor_spec rpc;
  meta = record monitor.meta {
    labels = some (copy (or_nil monitor.meta.labels) (get_pod_monitor_labels rpc));
  };
}

updated-IsUpToDate :
    (rpc : StarknetRpc) (monitor : PodMonitorObject)
    → monitor_is_up_to_date rpc (updated rpc monitor) ≡ ret true
unfolding monitor_is_up_to_date
updated-IsUpToDate rpc monitor = ground (
  arith,
  agrees-copy (or_nil monitor.meta.labels) (get_pod_monitor_labels rpc) (labels-HasKeysOnce rpc),
  same_spec_self rpc,
)

-- The PodMonitor that the operator creates for a resource is up to date by the test that decides
-- about updates, whatever the custom labels.
pub wanted-IsUpToDate :
    (rpc : StarknetRpc) → monitor_is_up_to_date rpc (get_wanted_pod_monitor rpc) ≡ ret true
unfolding monitor_is_up_to_date get_wanted_pod_monitor
wanted-IsUpToDate rpc =
    ground
      (arith, agrees_self (get_pod_monitor_labels rpc) (labels-HasKeysOnce rpc), same_spec_self rpc)

pub monitor-AreCoherent :
    {F : Type 0} (rpc : StarknetRpc) → AreCoherent {F = F} [] (pod_monitor_spec_reconciler rpc ∷ [])
unfolding update_monitor
monitor-AreCoherent rpc = (
  λ x x' e. subst (λ y. monitor_is_up_to_date rpc y ≡ ret true) (cc e) (updated-IsUpToDate rpc x),
  tt,
  tt,
)

-- If the update of a PodMonitor returns a PodMonitor, then that one is up to date, whatever the
-- custom labels of the resource.
pub update_monitor-accepted :
    {F : Type 0} (rpc : StarknetRpc) (monitor after : PodMonitorObject)
    → update_monitor {F = F} rpc monitor ≡ ret (after, none)
    → monitor_is_up_to_date rpc after ≡ ret true
update_monitor-accepted rpc monitor after e = (monitor-AreCoherent rpc).0 monitor after e
