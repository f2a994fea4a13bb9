-- ===== src/History/Serving.antt =====
-- The handlers of the pod and of the PodMonitor leave the condition of the restore alone.
use starknet_operators.Prelude.{arith, none, List, [], ◌∷◌}
use starknet_operators.Kubernetes.Core.{Pod}
use starknet_operators.Kubernetes.Client.{Kube, Resource, HasConditions, KeepsStatus}
use starknet_operators.Pass.{Pass, Stored, pod_stored, pod_monitor_stored, delete}
use starknet_operators.Condition.{set_phases}
use starknet_operators.Condition.Available
use starknet_operators.Proxy.{is_ready}
use starknet_operators.Reconciler.{create_or_reconcile}
use starknet_operators.Reconciler.Loop.{ObjectReconcilier}
use starknet_operators.Controller.Manifest.RpcPod.{get_wanted_pod}
use starknet_operators.Controller.Pod.{reconcile_pod, image_reconciler}
use starknet_operators.Controller.Pod.Keeps.{reconcile_pod-keeps}
use starknet_operators.Controller.PodMonitor.{reconcile_pod_monitor}
use starknet_operators.History.Marks.{marks_early, set_phases-IsEarning}
use starknet_operators.History.Earning.{Earns}

module _ {k : Kube} (conditions : HasConditions k) (status : KeepsStatus k) where
  abbrev Keeps : Pass k → Type 0
  Keeps = Earns conditions status

  set_available-Keeps :
      (s : Available.StarknetRpcAvailableStatus) (p : Pass k)
      → Keeps p
      → Keeps (set_phases {k = k} (Available.apply k s ∷ []) p).1
  unfolding Available.apply
  set_available-Keeps s p h =
      set_phases-IsEarning conditions status (Available.as_condition s) p (λ e. ground arith) h

  create_or_reconcile-Keeps :
      {T : Type 0} ⦃s : Stored T⦄ (r : Resource k.World k.Fault T) (x : T)
      (rs : List (ObjectReconcilier k.Fault T)) (p : Pass k)
      → Keeps p
      → Keeps (create_or_reconcile {k = k} r x rs p).1
  unfolding create_or_reconcile marks_early
  create_or_reconcile-Keeps r x rs p h = ground arith

  is_ready-Keeps : (pod : Pod) (p : Pass k) → Keeps p → Keeps (is_ready {k = k} pod p).1
  unfolding is_ready marks_early
  is_ready-Keeps pod p h = ground arith

  pub monitor-Keeps : (p : Pass k) → Keeps p → Keeps (reconcile_pod_monitor {k = k} p).1
  unfolding reconcile_pod_monitor marks_early
  monitor-Keeps p h = ground arith

  delete-Keeps : (pod : Pod) (p : Pass k) → Keeps p → Keeps (delete {k = k} k.pods pod none p).1
  unfolding delete marks_early
  delete-Keeps pod p h = ground arith

  pub pod-Keeps : (p : Pass k) → Keeps p → Keeps (reconcile_pod {k = k} p).1
  pod-Keeps =
      reconcile_pod-keeps Keeps set_available-Keeps
        (λ p.
          create_or_reconcile-Keeps k.pods (get_wanted_pod p.rpc) (image_reconciler p.rpc ∷ []) p)
        is_ready-Keeps delete-Keeps
