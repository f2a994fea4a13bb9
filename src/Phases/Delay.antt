-- ===== src/Phases/Delay.antt =====
-- How long the controller waits before it looks at a resource again.
use starknet_operators.Prelude.{
  arith, ◌≡◌, refl, ◌⊎◌, false, ◌≤◌, ◌*◌, ◌^◌, Option, none, some, inl, inr,
}
use starknet_operators.Prog.{Ends, Ends-trivial}
use starknet_operators.Kubernetes.Client.{Kube}
use starknet_operators.Kubernetes.Meta.{NamespacedName}
use starknet_operators.Pass.{Pass, M, Result, Reply, get_rpc}
use starknet_operators.Condition.Initialize.{initialize}
use starknet_operators.Controller.Restore.{reconcile_archive_restore}
use starknet_operators.Controller.Pvc.{reconcile_pvc}
use starknet_operators.Controller.Pod.{reconcile_pod}
use starknet_operators.Controller.PodMonitor.{reconcile_pod_monitor}
use starknet_operators.Controller.Reconcile.{Verdict, proceed, monitor_stage, reconcile}
use starknet_operators.Controller.Reconcile.Holds.{after_fetch-Holds}

-- A result that sets no delay, or one of a second up to half a minute, in nanoseconds.
abbrev pub IsDelay : Result → Type 0
IsDelay r =
    (r.requeue_after ≡ 0)
    ⊎ ((r.requeue ≡ false) × (10 ^ 9 ≤ r.requeue_after) × (r.requeue_after ≤ 30 * 10 ^ 9))

abbrev pub IsPaced : {F : Type 0} → Verdict F → Type 0
IsPaced v = IsDelay v.result

abbrev WaitsWell : Option Result → Type 0
WaitsWell none = Unit
WaitsWell (some r) = IsDelay r

abbrev IsPacedReply : {F : Type 0} → Reply F → Type 0
IsPacedReply r = WaitsWell r.result

module _ {k : Kube} (p : Pass k) where
  reconcile_pvc-Ends : Ends IsPacedReply (reconcile_pvc {k = k} p).0
  unfolding reconcile_pvc
  reconcile_pvc-Ends = ground arith

  restore-Ends : Ends IsPacedReply (reconcile_archive_restore {k = k} p).0
  unfolding reconcile_archive_restore
  restore-Ends = ground arith

  pod-Ends : Ends IsPacedReply (reconcile_pod {k = k} p).0
  unfolding reconcile_pod
  pod-Ends = ground arith

  monitor-Ends : Ends IsPacedReply (reconcile_pod_monitor {k = k} p).0
  unfolding reconcile_pod_monitor
  monitor-Ends = ground arith

module _ {k : Kube} where
  proceed-Ends :
      (rest : M k (Verdict k.Fault)) (go : (q : Pass k) → Ends IsPaced (rest q).0)
      → (reply : Reply k.Fault) (q : Pass k) → IsPacedReply reply
      → Ends IsPaced (proceed {k = k} rest reply q).0
  proceed-Ends rest go reply q h = ground (arith, go q)

  monitor_stage-Ends : (p : Pass k) → Ends IsPaced (monitor_stage {k = k} p).0
  unfolding monitor_stage
  monitor_stage-Ends p = ground (arith, monitor-Ends p)

  -- For every server, a run that ends without a panic sets no delay, or it sets one of at least a
  -- second and at most half a minute and does not ask for another run at once.
  pub reconcile-Ends :
      (req : NamespacedName) (p : Pass k) → Ends IsPaced (reconcile {k = k} req p).0
  unfolding reconcile get_rpc
  reconcile-Ends req p =
      after_fetch-Holds Unit IsPacedReply (λ _. Unit) IsPaced proceed-Ends
        (inr (refl, omega arith, omega arith)) (inl refl) (λ f. inl refl) (λ e _. inl refl)
        (λ q. Ends-trivial (initialize {k = k} q).0) reconcile_pvc-Ends restore-Ends pod-Ends
        monitor_stage-Ends (k.get_rpc req p.world).0 (get_rpc {k = k} req p).1
