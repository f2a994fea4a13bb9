-- ===== src/Total/Run.antt =====
-- When the stages and a whole run return.
use starknet_operators.Prelude.{arith, ◌≡◌, refl, Option, none, some, List, [], ◌∷◌}
use starknet_operators.Prog.{Returns}
use starknet_operators.Kubernetes.Client.{Kube}
use starknet_operators.Kubernetes.Meta.{NamespacedName, Condition}
use starknet_operators.Pass.{Pass, M, Error, next_loop, Result, no_result, Reply, get_rpc}
use starknet_operators.Condition.Initialize.{initialize_if, initialize}
use starknet_operators.Controller.Reconcile.{Verdict, proceed, monitor_stage, reconcile}
use starknet_operators.Controller.Reconcile.Holds.{after_fetch-Holds}
use starknet_operators.Condition.{set_phases}
use starknet_operators.Total.{IsSound, HasPort, NamesPort, Sends}
use starknet_operators.Total.Handlers.{reconcile_pvc-Returns, reconcile_archive_restore-Returns}
use starknet_operators.Total.RpcPod.{reconcile_pod-Returns}
use starknet_operators.Total.Monitor.{reconcile_pod_monitor-Returns}

abbrev NotNext : {F : Type 0} → Option (Error F) → Type 0
NotNext (some next_loop) = ⊥
NotNext _ = Unit

abbrev Reported : {F : Type 0} → Result → Option (Error F) → Type 0
Reported r none = Unit
Reported r (some next_loop) = ⊥
Reported r (some _) = r ≡ no_result

-- `ErrNextLoop` does not leave the reconciler, and an error comes with the empty result.
abbrev pub IsReported : {F : Type 0} → Verdict F → Type 0
IsReported v = Reported v.result v.error

module _ {k : Kube} where
  proceed-Returns :
      (rest : M k (Verdict k.Fault)) (go : (q : Pass k) → Returns IsReported (rest q).0)
      → (reply : Reply k.Fault) (q : Pass k) → IsSound reply
      → Returns IsReported (proceed {k = k} rest reply q).0
  proceed-Returns rest go reply q h = ground (arith, go q)

  initialize_if-Returns :
      (cs : List Condition) (p : Pass k) → Returns NotNext (initialize_if {k = k} cs p).0
  unfolding set_phases
  initialize_if-Returns [] p = ground arith
  initialize_if-Returns (c ∷ cs) p = tt

  initialize-Returns : (p : Pass k) → Returns NotNext (initialize {k = k} p).0
  unfolding initialize
  initialize-Returns p = initialize_if-Returns p.rpc.status.conditions p

  module _ (pods : Sends HasPort k.pods) (monitors : Sends NamesPort k.pod_monitors) where
    monitor_stage-Returns : (p : Pass k) → Returns IsReported (monitor_stage {k = k} p).0
    unfolding monitor_stage
    monitor_stage-Returns p = ground (arith, reconcile_pod_monitor-Returns monitors p)

    -- If every pod that the server sends has a port in its first container, and the first
    -- endpoint of every PodMonitor that it sends names its port, then a run returns and does not
    -- panic, whatever else the server answers; `ErrNextLoop` is never the error that it returns,
    -- and an error comes with the empty result.
    pub reconcile-Returns :
        (req : NamespacedName) (p : Pass k) → Returns IsReported (reconcile {k = k} req p).0
    unfolding reconcile get_rpc
    reconcile-Returns req p =
        after_fetch-Holds ⊥ IsSound NotNext IsReported proceed-Returns tt tt (λ f. refl)
          (λ e h. ground arith) initialize-Returns reconcile_pvc-Returns
          reconcile_archive_restore-Returns (reconcile_pod-Returns pods) monitor_stage-Returns
          (k.get_rpc req p.world).0 (get_rpc {k = k} req p).1
