-- ===== src/Phases/Steady.antt =====
-- A run for a resource whose objects are all there.
use starknet_operators.Prelude.{
  ◌≡◌, refl, true, false, ◌==◌, none, some, List, [], ◌∷◌, map, ap, ◌∙◌,
}
use starknet_operators.Prog.{Outcome, ret, ◌>>=◌}
use starknet_operators.Kubernetes.Meta.{NamespacedName, Condition, background, object_key}
use starknet_operators.Kubernetes.Core.{Pod, Pvc, Job}
use starknet_operators.Kubernetes.Client.{Kube, ok, err}
use starknet_operators.V1alpha1.{StarknetRpc}
use starknet_operators.Pass.{
  Pass, M, Entry, Call, create_call, get_call, delete_call, of_pod, of_pvc, of_job, rpc_kind,
  pod_kind, pod_monitor_kind, Reply, done, no_result, get_rpc, begin,
}
use starknet_operators.Condition.Initialize.{initialize}
use starknet_operators.Controller.Manifest.Names.{get_pod_monitor_name}
use starknet_operators.Controller.Manifest.Storage.{get_wanted_pvc, get_wanted_restore_pvc}
use starknet_operators.Controller.Manifest.RestoreJob.{get_wanted_restore_job}
use starknet_operators.Controller.Manifest.RpcPod.{get_wanted_pod}
use starknet_operators.Controller.Pvc.{reconcile_pvc}
use starknet_operators.Controller.Restore.{restore_done, reconcile_archive_restore}
use starknet_operators.Controller.Pod.{image_is_up_to_date, should_pod_get_recreated, reconcile_pod}
use starknet_operators.Controller.PodMonitor.{is_monitored, reconcile_pod_monitor}
use starknet_operators.Controller.Reconcile.{
  Verdict, finished, proceed, monitor_stage, pod_stage, gate_stage, restore_stage, pvc_stage,
  after_initialize, after_fetch, reconcile,
}
use starknet_operators.Phases.Quiet.{pvc_steady, restore_steady, pod_steady, monitor_steady}

abbrev pub calls_of : {k : Kube} → Pass k → List Call
calls_of p = map (λ (e : Entry). e.call) p.calls

-- The stage is the next one after the handler.
then_steady :
    {k : Kube} (m : M k (Reply k.Fault)) (rest : M k (Verdict k.Fault)) (p : Pass k)
    → (m p).0 ≡ ret done
    → (m >>= proceed rest) p ≡ rest (m p).1
then_steady m rest p h = rw h refl

module _ {k : Kube} (p : Pass k) where
  pvc_next :
      (reconcile_pvc {k = k} p).0 ≡ ret done
      → pvc_stage {k = k} p ≡ restore_stage (reconcile_pvc {k = k} p).1
  unfolding pvc_stage
  pvc_next = then_steady reconcile_pvc restore_stage p

  restore_next :
      (reconcile_archive_restore {k = k} p).0 ≡ ret done
      → restore_stage {k = k} p ≡ gate_stage (reconcile_archive_restore {k = k} p).1
  unfolding restore_stage
  restore_next = then_steady reconcile_archive_restore gate_stage p

  gate_next : restore_done k p.rpc ≡ true → gate_stage {k = k} p ≡ pod_stage p
  unfolding gate_stage
  gate_next h = rw h refl

  pod_next :
      (reconcile_pod {k = k} p).0 ≡ ret done
      → pod_stage {k = k} p ≡ monitor_stage (reconcile_pod {k = k} p).1
  unfolding pod_stage
  pod_next = then_steady reconcile_pod monitor_stage p

  monitor_last :
      (reconcile_pod_monitor {k = k} p).0 ≡ ret done
      → monitor_stage {k = k} p ≡ (ret (finished no_result), (reconcile_pod_monitor {k = k} p).1)
  unfolding monitor_stage
  monitor_last h = rw h refl

module _ (k : Kube) (rpc : StarknetRpc) (pod : Pod) (c : Condition) (cs : List Condition)
    (exists missing : k.Fault) (known : k.is_already_exists exists ≡ true)
    (gone : k.is_not_found missing ≡ true)
    (fetched : (n : NamespacedName) (w : k.World) → (k.get_rpc n w).0 ≡ ok rpc)
    (claim : (x : Pvc) (w : k.World) → (k.pvcs.create x w).0 ≡ err exists)
    (no_scratch : (x : Pvc) (w : k.World) → (k.pvcs.delete x none w).0 ≡ err missing)
    (no_job : (x : Job) (w : k.World) → (k.jobs.delete x (some background) w).0 ≡ err missing)
    (there : (x : Pod) (w : k.World) → (k.pods.create x w).0 ≡ err exists)
    (found : (n : NamespacedName) (w : k.World) → (k.pods.get n w).0 ≡ ok pod)
    (no_monitor : (n : NamespacedName) (w : k.World)
      → (k.pod_monitors.get n w).0 ≡ err missing) where
  stages_steady :
      restore_done k rpc ≡ true
      → is_monitored rpc.spec.pod_monitor ≡ false
      → image_is_up_to_date rpc pod ≡ ret true
      → should_pod_get_recreated pod ≡ false
      → (pod.status.phase == "Running") ≡ false
      → (p : Pass k) → p.rpc ≡ rpc
      → ((pvc_stage {k = k} p).0 ≡ ret (finished no_result))
        × (calls_of (pvc_stage {k = k} p).1
            ≡ get_call pod_monitor_kind (get_pod_monitor_name rpc)
              ∷ get_call pod_kind (object_key (get_wanted_pod rpc).meta)
              ∷ create_call (of_pod (get_wanted_pod rpc))
              ∷ delete_call (of_pvc (get_wanted_restore_pvc rpc)) none
              ∷ delete_call (of_job (get_wanted_restore_job rpc)) (some background)
              ∷ create_call (of_pvc (get_wanted_pvc rpc))
              ∷ calls_of p)
  stages_steady restored off current healthy idle p same =
      let (e0, r0, c0) = pvc_steady {k = k} rpc exists missing known gone claim p same in
      let q0 = (reconcile_pvc {k = k} p).1 in
      let (e1, r1, c1) =
        restore_steady {k = k} rpc exists missing known gone no_job no_scratch restored q0 r0 in
      let q1 = (reconcile_archive_restore {k = k} q0).1 in
      let (e2, r2, c2) =
        pod_steady {k = k} rpc exists missing known gone pod there found current healthy idle q1
          r1 in
      let q2 = (reconcile_pod {k = k} q1).1 in
      let (e3, r3, c3) =
        monitor_steady {k = k} rpc exists missing known gone no_monitor off q2 r2 in
      let q3 = (reconcile_pod_monitor {k = k} q2).1 in
      let whole : pvc_stage {k = k} p ≡ (ret (finished no_result), q3) =
        pvc_next p e0
        ∙ restore_next q0 e1
        ∙ gate_next q1 (ap (restore_done k) r1 ∙ restored)
        ∙ pod_next q1 e2
        ∙ monitor_last q2 e3 in
      (
        ap (λ (x : Outcome (Verdict k.Fault) × Pass k). x.0) whole,
        ap (λ (x : Outcome (Verdict k.Fault) × Pass k). calls_of x.1) whole
            ∙ c3
            ∙ ap (λ l. get_call pod_monitor_kind (get_pod_monitor_name rpc) ∷ l)
                (c2
                  ∙ ap
                      (λ l.
                        get_call pod_kind (object_key (get_wanted_pod rpc).meta)
                        ∷ create_call (of_pod (get_wanted_pod rpc))
                        ∷ l)
                      (c1
                        ∙ ap
                            (λ l.
                              delete_call (of_pvc (get_wanted_restore_pvc rpc)) none
                              ∷ delete_call (of_job (get_wanted_restore_job rpc)) (some background)
                              ∷ l)
                            c0)),
      )

  initialized :
      (p : Pass k)
      → p.rpc.status.conditions ≡ c ∷ cs
      → (initialize >>= after_initialize {k = k}) p ≡ pvc_stage p
  unfolding initialize
  initialized p h = rw h refl

  fetched_next :
      (req : NamespacedName) (p : Pass k)
      → (k.get_rpc req p.world).0 ≡ ok rpc
      → rpc.status.conditions ≡ c ∷ cs
      → reconcile {k = k} req p ≡ pvc_stage (record (get_rpc {k = k} req p).1 { rpc = rpc })
  unfolding reconcile after_fetch get_rpc
  fetched_next req p h i = rw h (initialized (record (get_rpc {k = k} req p).1 { rpc = rpc }) i)

  -- If the server gives the resource with at least one condition, its restore done and its
  -- monitoring off, answers the creations of claims and of pods with "already exists", the
  -- deletions of jobs and of claims and the lookups of PodMonitors with "not found", and the
  -- lookups of pods with a pod that has the wanted image, needs no recreation and is not in the
  -- phase "Running", then a run makes seven calls, each of them listed: it fetches the resource,
  -- tries to create the storage claim, to delete the job and the scratch claim and to create the
  -- pod, and reads the pod and the PodMonitor; it updates nothing, and ends without an error and
  -- without asking for another run.
  pub steady_run :
      restore_done k rpc ≡ true
      → is_monitored rpc.spec.pod_monitor ≡ false
      → image_is_up_to_date rpc pod ≡ ret true
      → should_pod_get_recreated pod ≡ false
      → (pod.status.phase == "Running") ≡ false
      → rpc.status.conditions ≡ c ∷ cs
      → (req : NamespacedName) (w : k.World)
      → let run = reconcile {k = k} req (begin w) in
        (run.0 ≡ ret (finished no_result))
        × (calls_of run.1
            ≡ get_call pod_monitor_kind (get_pod_monitor_name rpc)
              ∷ get_call pod_kind (object_key (get_wanted_pod rpc).meta)
              ∷ create_call (of_pod (get_wanted_pod rpc))
              ∷ delete_call (of_pvc (get_wanted_restore_pvc rpc)) none
              ∷ delete_call (of_job (get_wanted_restore_job rpc)) (some background)
              ∷ create_call (of_pvc (get_wanted_pvc rpc))
              ∷ get_call rpc_kind req
              ∷ [])
  unfolding get_rpc
  steady_run restored off current healthy idle first req w =
      let p = record (get_rpc {k = k} req (begin w)).1 { rpc = rpc } in
      rw (fetched_next req (begin w) (fetched req w) first)
        (stages_steady restored off current healthy idle p refl)
