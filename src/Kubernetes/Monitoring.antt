-- ===== src/Kubernetes/Monitoring.antt =====
-- The PodMonitor object of the Prometheus operator, with the fields that the program sets or reads.
use starknet_operators.Prelude.{String, Option, List}
use starknet_operators.Prelude.StringMap.{StringMap}
use starknet_operators.Kubernetes.Meta.{ObjectMeta}

-- monitoringv1.PodMetricsEndpoint; `port` is nil where the endpoint names its port otherwise. The
-- program neither sets nor reads the other fields (the interval, the scheme and so on): `others` has
-- those that are set, as texts.
pub record PodMetricsEndpoint : Type 0 where
  pub port : Option String
  pub path : String
  pub others : StringMap

-- metav1.LabelSelector; the program looks only at the number of match expressions
pub record LabelSelector : Type 0 where
  pub match_labels : StringMap
  pub match_expressions : List String

-- monitoringv1.PodMonitorSpec; `match_names` is that of the namespace selector
pub record PodMonitorSpec : Type 0 where
  pub pod_metrics_endpoints : List PodMetricsEndpoint
  pub selector : LabelSelector
  pub match_names : List String
  pub pod_target_labels : List String

-- monitoringv1.PodMonitor
pub record PodMonitorObject : Type 0 where
  pub meta : ObjectMeta
  pub spec : PodMonitorSpec
