-- ===== src/Controller/PodMonitor/Labels.antt =====
-- The labels of the PodMonitor (internal/controller/starknetrpc_podmonitor.go).
use starknet_operators.Prelude.{◌≡◌, refl, String, none, some}
use starknet_operators.Prelude.StringMap.{
  StringMap, HasKeysOnce, lookup, or_else, lookup-copy_override,
}
use starknet_operators.Prog.{ret}
use starknet_operators.Kubernetes.Monitoring.{PodMonitorObject}
use starknet_operators.V1alpha1.{StarknetRpc, PodMonitor}
use starknet_operators.Controller.Manifest.Monitor.{
  operator_labels, get_pod_monitor_labels, get_pod_monitor_spec,
}
use starknet_operators.Controller.PodMonitor.{or_nil, update_monitor}
use starknet_operators.Controller.PodMonitor.Update.{updated, labels-HasKeysOnce}

-- If the resource gives custom labels, each key once, a wanted label of the PodMonitor has the
-- custom value if the key is a custom one, and else the operator's value, if any.
pub lookup-get_pod_monitor_labels :
    (rpc : StarknetRpc) (monitor : PodMonitor) (custom : StringMap) (j : String)
    → rpc.spec.pod_monitor ≡ some monitor
    → monitor.labels ≡ some custom
    → HasKeysOnce custom
    → lookup j (get_pod_monitor_labels rpc)
      ≡ or_else (lookup j custom) (lookup j (operator_labels rpc))
unfolding get_pod_monitor_labels
lookup-get_pod_monitor_labels rpc monitor custom j given labels once =
    rw (given, labels) (lookup-copy_override j (operator_labels rpc) custom once)

-- If the update of a PodMonitor returns a PodMonitor, a label of that one has the wanted value if
-- it is a wanted label, and else the value that it had, if any; its specification is the wanted
-- one, and its name, namespace and owners are those it had.
pub lookup-update_monitor :
    {F : Type 0} (rpc : StarknetRpc) (monitor after : PodMonitorObject) (j : String)
    → update_monitor {F = F} rpc monitor ≡ ret (after, none)
    → (lookup j (or_nil after.meta.labels)
        ≡ or_else (lookup j (get_pod_monitor_labels rpc)) (lookup j (or_nil monitor.meta.labels)))
      × (after.spec ≡ get_pod_monitor_spec rpc)
      × (after.meta.name ≡ monitor.meta.name)
      × (after.meta.namespace ≡ monitor.meta.namespace)
      × (after.meta.owner_references ≡ monitor.meta.owner_references)
unfolding update_monitor
lookup-update_monitor rpc monitor after j e =
    let same : updated rpc monitor ≡ after = cc e in
    rw (← same) (
      lookup-copy_override j (or_nil monitor.meta.labels) (get_pod_monitor_labels rpc)
          (labels-HasKeysOnce rpc),
      refl,
      refl,
      refl,
      refl,
    )
