-- ===== src/Tests/Manifests.antt =====
-- The theorems at work on small inputs: names, labels, manifests and statuses.
use starknet_operators.Prelude.{◌⊎◌, some, ◌≡◌, ◌↔◌, refl, true, [], ◌∷◌, arith, eq_iff, map}
use starknet_operators.Prelude.StringMap.{agrees}
use starknet_operators.Prog.{ret}
use starknet_operators.Kubernetes.Meta.{object_key}
use starknet_operators.Kubernetes.Core.{ContainerPort}
use starknet_operators.Kubernetes.Monitoring.{PodMonitorObject, PodMetricsEndpoint}
use starknet_operators.Pass.{pod_stored}
use starknet_operators.Condition.Available
use starknet_operators.Condition.Restore
use starknet_operators.Condition.Statuses.{apply-conditions}
use starknet_operators.Controller.Manifest.Names.{
  get_storage_pvc_name, get_restore_pvc_name, get_restore_job_name, get_pod_name,
  get_pod_monitor_name,
}
use starknet_operators.Controller.Manifest.Disjoint.{names_inj}
use starknet_operators.Controller.Manifest.Links.{wanted_pod_monitor-selects}
use starknet_operators.Controller.Manifest.RpcPod.{pod_labels, get_wanted_pod}
use starknet_operators.Controller.Manifest.Monitor.{get_wanted_pod_monitor}
use starknet_operators.Controller.PodMonitor.{monitor_is_up_to_date, update_monitor}
use starknet_operators.Controller.PodMonitor.Update.{updated, update_monitor-accepted}
use starknet_operators.Controller.PodMonitor.Current.{IsCurrent, monitor_is_up_to_date_iff}
use starknet_operators.Proxy.{get_named_port}
use starknet_operators.Tests.Server.{Fault, server, conditions}
use starknet_operators.Tests.Data.{node, restored}

names_inj_example :
    let a = node [] in
    let b = node restored in
    ((get_storage_pvc_name a ≡ get_storage_pvc_name b) ↔ (object_key a.meta ≡ object_key b.meta))
    × ((get_restore_pvc_name a ≡ get_restore_pvc_name b) ↔ (object_key a.meta ≡ object_key b.meta))
    × ((get_restore_job_name a ≡ get_restore_job_name b) ↔ (object_key a.meta ≡ object_key b.meta))
    × ((get_pod_name a ≡ get_pod_name b) ↔ (object_key a.meta ≡ object_key b.meta))
    × ((get_pod_monitor_name a ≡ get_pod_monitor_name b) ↔ (object_key a.meta ≡ object_key b.meta))
names_inj_example = names_inj (node []) (node restored)

wanted_pod_monitor-selects_example :
    let rpc = node [] in
    (agrees (get_wanted_pod_monitor rpc).spec.selector.match_labels (pod_labels rpc) ≡ true)
    × ((get_wanted_pod rpc).meta.labels ≡ some (pod_labels rpc))
    × ((get_wanted_pod_monitor rpc).spec.match_names ≡ (get_wanted_pod rpc).meta.namespace ∷ [])
    × (map
          (λ (e : PodMetricsEndpoint). e.port)
          (get_wanted_pod_monitor rpc).spec.pod_metrics_endpoints
        ≡ some "monitoring" ∷ [])
    × (get_named_port (get_wanted_pod rpc) "monitoring" ≡ ret 9000)
wanted_pod_monitor-selects_example = wanted_pod_monitor-selects (node [])

abbrev rpc_port : ContainerPort
rpc_port = record { name = "rpc"; container_port = 9545; protocol = "TCP" }

abbrev monitoring_port : ContainerPort
monitoring_port = record { name = "monitoring"; container_port = 9000; protocol = "" }

apply-conditions_example :
    let s = Restore.success in
    let t = Available.creating in
    let after = Restore.apply server s (Available.apply server t (node [])) in
    ((server.is_status_condition_true after.status.conditions "Restore" ≡ true)
      ↔ ((s ≡ "Success") ⊎ (s ≡ "Skipped")))
    × ((server.is_status_condition_true after.status.conditions "Available" ≡ true) ↔ (t ≡ "Ready"))
apply-conditions_example =
    apply-conditions {k = server} conditions Restore.success Available.creating (node [])

-- The PodMonitor of the node, with a label of another program and without the wanted ones.
unfoldable foreign_monitor : PodMonitorObject
unfolding get_wanted_pod_monitor
foreign_monitor =
    let m = get_wanted_pod_monitor (node []) in
    record m { meta = record m.meta { labels = some (("release", "prometheus") ∷ []) } }

update_monitor-accepted_example :
    monitor_is_up_to_date (node []) (updated (node []) foreign_monitor) ≡ ret true
unfolding update_monitor
update_monitor-accepted_example =
    update_monitor-accepted {F = Fault} (node []) foreign_monitor
      (updated (node []) foreign_monitor) refl

-- The wanted PodMonitor, but with another interval, in another namespace, and without labels copied
-- from the pods.
abbrev strayed : PodMonitorObject
strayed =
    let wanted = get_wanted_pod_monitor (node []) in
    record wanted {
      spec = record wanted.spec {
        pod_metrics_endpoints =
            record { port = some "monitoring"; path = "/metrics"; others = ("interval", "5s") ∷ [] }
            ∷ [];
        match_names = "other" ∷ [];
        pod_target_labels = [];
      };
    }

strayed-IsUpToDate : monitor_is_up_to_date (node []) strayed ≡ ret true
unfolding monitor_is_up_to_date get_wanted_pod_monitor
strayed-IsUpToDate = refl

monitor_is_up_to_date_iff_example :
    (monitor_is_up_to_date (node []) strayed ≡ ret true) ↔ IsCurrent (node []) strayed
monitor_is_up_to_date_iff_example =
    monitor_is_up_to_date_iff (node []) strayed (λ e. ground (arith, eq_iff "alpha" ""))
