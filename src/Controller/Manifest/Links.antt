-- ===== src/Controller/Manifest/Links.antt =====
-- How the wanted objects of a resource refer to one another (internal/controller: the functions
-- called GetWanted…).
use starknet_operators.Prelude.{arith, ◌≡◌, refl, true, String, List, [], ◌∷◌, map, eq_iff, some}
use starknet_operators.Prelude.StringMap.{agrees}
use starknet_operators.Prog.{ret}
use starknet_operators.Kubernetes.Core.{PodSpec, Volume}
use starknet_operators.Kubernetes.Monitoring.{PodMetricsEndpoint}
use starknet_operators.V1alpha1.{StarknetRpc}
use starknet_operators.Proxy.{get_named_port}
use starknet_operators.Controller.Manifest.Storage.{get_wanted_pvc, get_wanted_restore_pvc}
use starknet_operators.Controller.Manifest.RestoreJob.{get_wanted_restore_job}
use starknet_operators.Controller.Manifest.RpcPod.{pod_labels, get_wanted_pod}
use starknet_operators.Controller.Manifest.Monitor.{get_wanted_pod_monitor}

-- The claims of a pod template, in the order of its volumes.
abbrev pub claims : PodSpec → List String
claims spec = map (λ (v : Volume). v.claim_name) spec.volumes

-- The wanted pod uses the wanted storage claim, and the wanted restore job uses the wanted
-- storage claim and then the wanted scratch claim; the pod and the job are in the namespaces of
-- the claims that they use.
pub wanted-claims :
    (rpc : StarknetRpc)
    → (claims (get_wanted_pod rpc).spec ≡ (get_wanted_pvc rpc).meta.name ∷ [])
      × (claims (get_wanted_restore_job rpc).template
          ≡ (get_wanted_pvc rpc).meta.name ∷ (get_wanted_restore_pvc rpc).meta.name ∷ [])
      × ((get_wanted_pod rpc).meta.namespace ≡ (get_wanted_pvc rpc).meta.namespace)
      × ((get_wanted_restore_job rpc).meta.namespace ≡ (get_wanted_pvc rpc).meta.namespace)
      × ((get_wanted_restore_job rpc).meta.namespace ≡ (get_wanted_restore_pvc rpc).meta.namespace)
unfolding get_wanted_pod get_wanted_restore_job get_wanted_pvc get_wanted_restore_pvc
wanted-claims rpc = (refl, refl, refl, refl, refl)

-- The labels that the wanted PodMonitor selects are labels of the wanted pod, it looks in the
-- pod's namespace, and the port that its only endpoint names is port 9000 of the pod.
pub wanted_pod_monitor-selects :
    (rpc : StarknetRpc)
    → (agrees (get_wanted_pod_monitor rpc).spec.selector.match_labels (pod_labels rpc) ≡ true)
      × ((get_wanted_pod rpc).meta.labels ≡ some (pod_labels rpc))
      × ((get_wanted_pod_monitor rpc).spec.match_names ≡ (get_wanted_pod rpc).meta.namespace ∷ [])
      × (map
            (λ (e : PodMetricsEndpoint). e.port)
            (get_wanted_pod_monitor rpc).spec.pod_metrics_endpoints
          ≡ some "monitoring" ∷ [])
      × (get_named_port (get_wanted_pod rpc) "monitoring" ≡ ret 9000)
unfolding get_wanted_pod_monitor get_wanted_pod pod_labels agrees get_named_port
wanted_pod_monitor-selects rpc =
    (ground (arith, eq_iff rpc.meta.name rpc.meta.name), refl, refl, refl, refl)
