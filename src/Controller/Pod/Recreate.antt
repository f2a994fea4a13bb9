-- ===== src/Controller/Pod/Recreate.antt =====
-- When a pod is recreated (shouldPodGetRecreated of internal/controller/starknetrpc_pod.go).
use starknet_operators.Prelude.{
  arith, ◌≡◌, ◌<◌, ◌↔◌, ◌⊎◌, inl, inr, true, false, some, List, [], ◌∷◌, Any, eq_iff, ◌==◌, Bool,
  refl, if◌then◌else◌, Option-cases,
}
use starknet_operators.Kubernetes.Core.{Pod, ContainerStatus}
use starknet_operators.Controller.Pod.{
  is_crash_looping, any_crash_looping, should_pod_get_recreated,
}

-- The container waits in a crash loop, and was restarted more than five times.
abbrev pub IsCrashLooping : ContainerStatus → Type 0
IsCrashLooping cs = (cs.waiting_reason ≡ some "CrashLoopBackOff") × (5 < cs.restart_count)

is_crash_looping_iff : (cs : ContainerStatus) → (is_crash_looping cs ≡ true) ↔ IsCrashLooping cs
unfolding is_crash_looping
is_crash_looping_iff cs = elim (Option-cases cs.waiting_reason) [
  | inl e ↦ ground arith
  | inr (reason, e) ↦ ground (arith, eq_iff reason "CrashLoopBackOff")
]

-- `if a then true else b` is a disjunction.
if_true_iff :
    {A B : Type 0} (a b : Bool)
    → (a ≡ true) ↔ A
    → (b ≡ true) ↔ B
    → ((if a then true else b) ≡ true) ↔ (A ⊎ B)
if_true_iff true b p q = (λ _. inl (p.0 refl), λ _. refl)
if_true_iff false b p q = (λ h. inr (q.0 h), λ h. elim h [ inl x ↦ cc (p.1 x) | inr y ↦ q.1 y ])

any_crash_looping_iff :
    (l : List ContainerStatus) → (any_crash_looping l ≡ true) ↔ Any IsCrashLooping l
unfolding any_crash_looping
any_crash_looping_iff [] = ground arith
any_crash_looping_iff (cs ∷ l) =
    if_true_iff (is_crash_looping cs) (any_crash_looping l) (is_crash_looping_iff cs)
      (any_crash_looping_iff l)

-- A pod gets recreated exactly if the reason of its status is "Evicted", or one of its containers
-- waits with the reason "CrashLoopBackOff" and was restarted more than five times.
pub should_pod_get_recreated_iff :
    (pod : Pod)
    → (should_pod_get_recreated pod ≡ true)
      ↔ ((pod.status.reason ≡ "Evicted") ⊎ Any IsCrashLooping pod.status.container_statuses)
unfolding should_pod_get_recreated
should_pod_get_recreated_iff pod =
    if_true_iff (pod.status.reason == "Evicted") (any_crash_looping pod.status.container_statuses)
      (eq_iff pod.status.reason "Evicted") (any_crash_looping_iff pod.status.container_statuses)
