-- ===== src/Proxy.antt =====
-- internal/utils/proxy/proxy.go: the readiness probes of a pod, through the proxy subresource.
pub mod Port
pub mod Ready
use starknet_operators.Prelude.{
  ℕ, String, Bool, true, false, not, ◌||◌, Option, none, some, List, [], ◌∷◌, ◌==◌, if◌then◌else◌,
}
use starknet_operators.Prelude.Decimal.{itoa}
use starknet_operators.Prog.{Outcome, ret, panic, pure, lift, ◌>>=◌}
use starknet_operators.Kubernetes.Meta.{object_key}
use starknet_operators.Kubernetes.Core.{Pod, ContainerPort}
use starknet_operators.Kubernetes.Client.{Kube, Answer, ok, err, ProxyRequest}
use starknet_operators.Pass.{M, Error, api, proxy_get}

-- `xs[0]`, which panics on an empty slice.
abbrev pub first : {A : Type 0} → List A → Outcome A
first [] = panic
first (x ∷ _) = ret x

abbrev pub and_then : {A B : Type 0} → Outcome A → (A → Outcome B) → Outcome B
and_then (ret a) f = f a
and_then panic f = panic

unfoldable pub port_named : List ContainerPort → String → ℕ
port_named [] name = 0
port_named (port ∷ ports) name =
    if port.name == name then port.container_port else port_named ports name

unfoldable pub get_named_port : Pod → String → Outcome ℕ
unfolding port_named
get_named_port pod name = and_then (first pod.spec.containers) λ c. ret (port_named c.ports name)

-- The request to one path of a pod: the port called "management", and the scheme by the protocol
-- of the first port.
unfoldable pub probe : Pod → String → Outcome ProxyRequest
unfolding get_named_port itoa
probe pod path = and_then (get_named_port pod "management") λ port.
    and_then (first pod.spec.containers) λ c. and_then (first c.ports) λ p. ret (record {
      scheme = if p.protocol == "TCP" then "https" else "http";
      pod = object_key pod.meta;
      port = itoa port;
      path = path;
    })

-- The `(bool, error)` of a probe.
pub record Probed (F : Type 0) : Type 0 where
  pub ready : Bool
  pub error : Option (Error F)

judge_ready : (k : Kube) → Answer k.Fault (Unit {0}) → Probed k.Fault
judge_ready k (ok _) = record { ready = true; error = none }
judge_ready k (err f) =
    if k.is_bad_request f || k.is_service_unavailable f
    then record { ready = false; error = none }
    else record { ready = false; error = some (api f) }

judge_synced : {F : Type 0} → Answer F (Unit {0}) → Probed F
judge_synced (ok _) = record { ready = true; error = none }
judge_synced (err f) = record { ready = false; error = some (api f) }

module _ {k : Kube} where
  unfoldable pub is_ready : Pod → M k (Probed k.Fault)
  unfolding judge_ready proxy_get
  is_ready pod =
      if not (pod.status.phase == "Running")
      then pure (record { ready = false; error = none })
      else do
        request ← lift (probe pod "/ready")
        answer ← proxy_get request
        pure (judge_ready k answer)

  unfoldable pub is_synced : Pod → M k (Probed k.Fault)
  unfolding judge_synced proxy_get
  is_synced pod = do
    request ← lift (probe pod "/ready/synced")
    answer ← proxy_get request
    pure (judge_synced answer)
