-- ===== src/Controller/PodMonitor/Current.antt =====
-- What the test of PodMonitorSpecReconciler looks at (internal/controller/starknetrpc_podmonitor.go).
use starknet_operators.Prelude.{
  arith, ◌≡◌, ◌≢◌, ◌↔◌, refl, ap, String, Bool, true, false, nat_eq, length, if◌then◌else◌, Option,
  none, some, List, [], ◌∷◌, map, eq_iff,
}
use starknet_operators.Prelude.StringMap.{StringMap, HasKeysOnce, lookup, read, agrees}
use starknet_operators.Prog.{Outcome, ret}
use starknet_operators.Kubernetes.Monitoring.{
  PodMonitorObject, PodMonitorSpec, LabelSelector, PodMetricsEndpoint,
}
use starknet_operators.V1alpha1.{StarknetRpc}
use starknet_operators.Controller.Manifest.Monitor.{get_pod_monitor_labels, get_pod_monitor_spec}
use starknet_operators.Controller.PodMonitor.{
  or_nil, same_first, same_selector, same_spec, if_same, monitor_is_up_to_date,
}
use starknet_operators.Controller.PodMonitor.Update.{same_spec_self, labels-HasKeysOnce}

-- A map reads as the entries of another.
abbrev pub Reads : StringMap → StringMap → Type 0
Reads have want = (j v : String) → lookup j want ≡ some v → read have j ≡ v

agrees-Reads : (want have : StringMap) → agrees want have ≡ true → Reads have want
unfolding agrees lookup read
agrees-Reads [] have e j v found = ground arith
agrees-Reads ((k, w) ∷ want) have e j v found =
    ground (arith, eq_iff k j, eq_iff (read have k) w, agrees-Reads want have (ground arith) j v)

Reads-agrees :
    (want have : StringMap) → HasKeysOnce want → Reads have want → agrees want have ≡ true
unfolding agrees lookup
Reads-agrees [] have once f = refl
Reads-agrees ((k, w) ∷ want) have once f = ground (
  arith,
  eq_iff k k,
  eq_iff (read have k) w,
  f k w,
  Reads-agrees want have once.1 (λ j v e. f j v (ground (arith, eq_iff k j))),
)

-- What the test looks at in an endpoint: the name of its port, and its path.
abbrev pub tested : PodMetricsEndpoint → Option String × String
tested e = (e.port, e.path)

abbrev wanted_endpoints : List PodMetricsEndpoint
wanted_endpoints = record { port = some "monitoring"; path = "/metrics"; others = [] } ∷ []

endpoint_lem :
    (port : Option String) (path : String) (others : StringMap)
    → same_first (record { port = port; path = path; others = others } ∷ []) wanted_endpoints
      ≡ ret true
    → (port ≡ some "monitoring") × (path ≡ "/metrics")
endpoint_lem none path others e = ground arith
endpoint_lem (some port) path others e =
    ground (arith, eq_iff port "monitoring", eq_iff path "/metrics")

endpoints_lem :
    (l : List PodMetricsEndpoint) (rest : Bool)
    → (if nat_eq (length l) 1 then if_same (same_first l wanted_endpoints) rest else ret false)
      ≡ ret true
    → (map tested l ≡ map tested wanted_endpoints) × (rest ≡ true)
endpoints_lem [] rest e = ground arith
endpoints_lem (c ∷ []) rest e = ground (arith, endpoint_lem c.port c.path c.others)
endpoints_lem (c ∷ d ∷ l) rest e = ground arith

tested_lem :
    (l : List PodMetricsEndpoint) (rest : Bool)
    → map tested l ≡ map tested wanted_endpoints
    → rest ≡ true
    → (if nat_eq (length l) 1 then if_same (same_first l wanted_endpoints) rest else ret false)
      ≡ ret true
tested_lem [] rest e true_rest = ground arith
tested_lem (c ∷ []) rest e true_rest =
    let same : tested c ≡ (some "monitoring", "/metrics") = cc e in
    rw (ap (λ t. t.0) same, ap (λ t. t.1) same, true_rest) refl
tested_lem (c ∷ d ∷ l) rest e true_rest = ground arith

label_lem :
    (l : StringMap) (n : String)
    → n ≢ ""
    → length l ≡ 1
    → read l "rpc.runelabs.xyz/name" ≡ n
    → l ≡ ("rpc.runelabs.xyz/name", n) ∷ []
unfolding read lookup
label_lem [] n given one e = ground arith
label_lem ((k, v) ∷ []) n given one e = ground (arith, eq_iff k "rpc.runelabs.xyz/name")
label_lem (x ∷ y ∷ l) n given one e = ground arith

selector_lem :
    (selector : LabelSelector) (n : String)
    → n ≢ ""
    → same_selector selector
        (record { match_labels = ("rpc.runelabs.xyz/name", n) ∷ []; match_expressions = [] })
      ≡ true
    → selector ≡ record { match_labels = ("rpc.runelabs.xyz/name", n) ∷ []; match_expressions = [] }
unfolding agrees
selector_lem selector n given e = ground (
  arith,
  eq_iff (read selector.match_labels "rpc.runelabs.xyz/name") n,
  label_lem selector.match_labels n given,
)

-- The labels read as wanted; there are as many endpoints as wanted, with the wanted port names and
-- paths; and the selector is the wanted one.
abbrev pub IsCurrent : StarknetRpc → PodMonitorObject → Type 0
IsCurrent rpc monitor =
    Reads (or_nil monitor.meta.labels) (get_pod_monitor_labels rpc)
    × (map tested monitor.spec.pod_metrics_endpoints
        ≡ map tested (get_pod_monitor_spec rpc).pod_metrics_endpoints)
    × (monitor.spec.selector ≡ (get_pod_monitor_spec rpc).selector)

spec_lem :
    (rpc : StarknetRpc) (spec : PodMonitorSpec)
    → rpc.meta.name ≢ ""
    → same_spec spec (get_pod_monitor_spec rpc) ≡ ret true
    → (map tested spec.pod_metrics_endpoints
        ≡ map tested (get_pod_monitor_spec rpc).pod_metrics_endpoints)
      × (spec.selector ≡ (get_pod_monitor_spec rpc).selector)
unfolding get_pod_monitor_spec
spec_lem rpc spec given e =
    let both = endpoints_lem spec.pod_metrics_endpoints _ e in
    (both.0, selector_lem spec.selector rpc.meta.name given both.1)

-- The wanted selector passes its own test.
selector_self :
    (rpc : StarknetRpc)
    → same_selector (get_pod_monitor_spec rpc).selector (get_pod_monitor_spec rpc).selector ≡ true
unfolding get_pod_monitor_spec
selector_self rpc =
    (endpoints_lem (get_pod_monitor_spec rpc).pod_metrics_endpoints _ (same_spec_self rpc)).1

spec_current :
    (rpc : StarknetRpc) (spec : PodMonitorSpec)
    → map tested spec.pod_metrics_endpoints
      ≡ map tested (get_pod_monitor_spec rpc).pod_metrics_endpoints
    → spec.selector ≡ (get_pod_monitor_spec rpc).selector
    → same_spec spec (get_pod_monitor_spec rpc) ≡ ret true
unfolding get_pod_monitor_spec
spec_current rpc spec a b = tested_lem spec.pod_metrics_endpoints _ a (rw b (selector_self rpc))

if_ret :
    (labels : Bool) (spec : Outcome Bool)
    → (if labels then spec else ret false) ≡ ret true
    → (labels ≡ true) × (spec ≡ ret true)
if_ret labels spec e = ground arith

-- If the resource has a name that is not empty, a PodMonitor is found to be up to date exactly if
-- each wanted label reads as wanted, it has as many endpoints as wanted, with the wanted names of
-- ports and the wanted paths, and its selector is the wanted one; the other fields of the
-- endpoints and of the PodMonitor play no part.
pub monitor_is_up_to_date_iff :
    (rpc : StarknetRpc) (monitor : PodMonitorObject)
    → rpc.meta.name ≢ ""
    → (monitor_is_up_to_date rpc monitor ≡ ret true) ↔ IsCurrent rpc monitor
unfolding monitor_is_up_to_date
monitor_is_up_to_date_iff rpc monitor given = (
  λ e.
      let both = if_ret _ _ e in
      let spec = spec_lem rpc monitor.spec given both.1 in
      (agrees-Reads _ _ both.0, spec.0, spec.1),
  λ (labels, endpoints, selector).
      rw
        (Reads-agrees (get_pod_monitor_labels rpc) (or_nil monitor.meta.labels)
          (labels-HasKeysOnce rpc) labels)
        (spec_current rpc monitor.spec endpoints selector),
)
