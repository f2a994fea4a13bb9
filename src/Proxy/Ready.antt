-- ===== src/Proxy/Ready.antt =====
-- What a probe says of a pod (IsReady of internal/utils/proxy/proxy.go).
use starknet_operators.Prelude.{arith, ◌≡◌, ◌↔◌, true, eq_iff}
use starknet_operators.Prog.{ret}
use starknet_operators.Kubernetes.Core.{Pod}
use starknet_operators.Kubernetes.Client.{Kube, ok, ProxyRequest}
use starknet_operators.Pass.{Pass}
use starknet_operators.Proxy.{Probed, probe, is_ready}

module _ {k : Kube} (pod : Pod) (p : Pass k) (q : ProxyRequest) (v : Probed k.Fault) where
  -- If the probe of a pod can be built and the test of its readiness returns, then the pod is
  -- found to be ready exactly if it is in the phase "Running" and the server answers that probe
  -- with success.
  pub is_ready_iff :
      probe pod "/ready" ≡ ret q
      → (is_ready {k = k} pod p).0 ≡ ret v
      → (v.ready ≡ true) ↔ ((pod.status.phase ≡ "Running") × ((k.proxy_get q p.world).0 ≡ ok tt))
  unfolding is_ready
  is_ready_iff request returned = (
    λ h. ground (arith, eq_iff pod.status.phase "Running"),
    λ h. ground (arith, eq_iff pod.status.phase "Running"),
  )
