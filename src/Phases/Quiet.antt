-- ===== src/Phases/Quiet.antt =====
-- The handlers, where the server has all objects of the resource.
use starknet_operators.Prelude.{arith, ◌≡◌, true, false, ◌==◌, none, some, List, [], ◌∷◌, ◌++◌, map}
use starknet_operators.Prog.{Outcome, ret}
use starknet_operators.Kubernetes.Meta.{NamespacedName, background, object_key}
use starknet_operators.Kubernetes.Core.{Pod, Pvc, Job}
use starknet_operators.Kubernetes.Client.{Kube, ok, err}
use starknet_operators.V1alpha1.{StarknetRpc}
use starknet_operators.Pass.{
  Pass, Entry, Call, create_call, get_call, delete_call, of_pod, of_pvc, of_job, pod_kind,
  pod_monitor_kind, Reply, done,
}
use starknet_operators.Reconciler.{create_or_reconcile}
use starknet_operators.Reconciler.Loop.{reconcile_all}
use starknet_operators.Proxy.{is_ready}
use starknet_operators.Controller.Manifest.Names.{get_pod_monitor_name}
use starknet_operators.Controller.Manifest.Storage.{get_wanted_pvc, get_wanted_restore_pvc}
use starknet_operators.Controller.Manifest.RestoreJob.{get_wanted_restore_job}
use starknet_operators.Controller.Manifest.RpcPod.{get_wanted_pod}
use starknet_operators.Controller.Pvc.{reconcile_pvc}
use starknet_operators.Controller.Restore.{restore_done, reconcile_archive_restore}
use starknet_operators.Controller.Pod.{image_is_up_to_date, should_pod_get_recreated, reconcile_pod}
use starknet_operators.Controller.PodMonitor.{is_monitored, reconcile_pod_monitor}

-- A handler ends well, and these are its calls, the latest first.
abbrev pub Ends :
    {k : Kube} → StarknetRpc → List Call → Outcome (Reply k.Fault) × Pass k → Pass k → Type 0
Ends {k} rpc calls (o, q) p =
    (o ≡ ret done)
    × (q.rpc ≡ rpc)
    × (map (λ (e : Entry). e.call) q.calls ≡ calls ++ map (λ (e : Entry). e.call) p.calls)

module _ {k : Kube} (rpc : StarknetRpc) (exists missing : k.Fault)
    (known : k.is_already_exists exists ≡ true) (gone : k.is_not_found missing ≡ true) where
  pub pvc_steady :
      ((x : Pvc) (w : k.World) → (k.pvcs.create x w).0 ≡ err exists)
      → (p : Pass k) → p.rpc ≡ rpc
      → Ends rpc (create_call (of_pvc (get_wanted_pvc rpc)) ∷ []) (reconcile_pvc {k = k} p) p
  unfolding reconcile_pvc
  pvc_steady claim p same = ground (arith, claim (get_wanted_pvc rpc) p.world)

  pub restore_steady :
      ((x : Job) (w : k.World) → (k.jobs.delete x (some background) w).0 ≡ err missing)
      → ((x : Pvc) (w : k.World) → (k.pvcs.delete x none w).0 ≡ err missing)
      → restore_done k rpc ≡ true
      → (p : Pass k) → p.rpc ≡ rpc
      → Ends rpc
          (delete_call (of_pvc (get_wanted_restore_pvc rpc)) none
            ∷ delete_call (of_job (get_wanted_restore_job rpc)) (some background)
            ∷ [])
          (reconcile_archive_restore {k = k} p)
          p
  unfolding reconcile_archive_restore
  restore_steady no_job no_scratch restored p same =
      let job = get_wanted_restore_job rpc in
      ground (
        arith,
        no_job job p.world,
        no_scratch (get_wanted_restore_pvc rpc) (k.jobs.delete job (some background) p.world).1,
      )

  pub pod_steady :
      (pod : Pod)
      → ((x : Pod) (w : k.World) → (k.pods.create x w).0 ≡ err exists)
      → ((n : NamespacedName) (w : k.World) → (k.pods.get n w).0 ≡ ok pod)
      → image_is_up_to_date rpc pod ≡ ret true
      → should_pod_get_recreated pod ≡ false
      → (pod.status.phase == "Running") ≡ false
      → (p : Pass k) → p.rpc ≡ rpc
      → Ends rpc
          (get_call pod_kind (object_key (get_wanted_pod rpc).meta)
            ∷ create_call (of_pod (get_wanted_pod rpc))
            ∷ [])
          (reconcile_pod {k = k} p)
          p
  unfolding reconcile_pod create_or_reconcile reconcile_all is_ready
  pod_steady pod there found current healthy idle p same =
      let wanted = get_wanted_pod rpc in
      ground (
        arith,
        there wanted p.world,
        found (object_key wanted.meta) (k.pods.create wanted p.world).1,
      )

  pub monitor_steady :
      ((n : NamespacedName) (w : k.World) → (k.pod_monitors.get n w).0 ≡ err missing)
      → is_monitored rpc.spec.pod_monitor ≡ false
      → (p : Pass k) → p.rpc ≡ rpc
      → Ends rpc
          (get_call pod_monitor_kind (get_pod_monitor_name rpc) ∷ [])
          (reconcile_pod_monitor {k = k} p)
          p
  unfolding reconcile_pod_monitor
  monitor_steady no_monitor off p same =
      ground (arith, no_monitor (get_pod_monitor_name rpc) p.world)
