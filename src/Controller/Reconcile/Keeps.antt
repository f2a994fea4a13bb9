-- ===== src/Controller/Reconcile/Keeps.antt =====
-- What each handler keeps is kept by the stages of Reconcile, and by a whole run.
use starknet_operators.Prelude.{
  ◌≡◌, true, Option, Option-cases, none, some, Bool-cases, inl, inr, List, [], ◌∷◌,
}
use starknet_operators.Prog.{>>=-keeps}
use starknet_operators.Kubernetes.Meta.{Condition}
use starknet_operators.Kubernetes.Client.{Kube, Answer, ok, err}
use starknet_operators.V1alpha1.{StarknetRpc}
use starknet_operators.Pass.{Pass, M, Error, Reply}
use starknet_operators.Condition.{set_phases}
use starknet_operators.Condition.Initialize.{initial_phases, initialize_if, initialize}
use starknet_operators.Controller.Pvc.{reconcile_pvc}
use starknet_operators.Controller.Restore.{restore_done, reconcile_archive_restore}
use starknet_operators.Controller.Pod.{reconcile_pod}
use starknet_operators.Controller.PodMonitor.{reconcile_pod_monitor}
use starknet_operators.Controller.Reconcile.{
  Verdict, proceed, monitor_stage, pod_stage, gate_stage, restore_stage, pvc_stage,
  after_initialize, after_fetch,
}

module _ {k : Kube} (P : Pass k → Type 0) where
  pub proceed-keeps :
      (rest : M k (Verdict k.Fault)) (keep : (q : Pass k) → P q → P (rest q).1)
      (reply : Reply k.Fault) (q : Pass k)
      → P q
      → P (proceed {k = k} rest reply q).1
  proceed-keeps rest keep reply q h = elim (Option-cases reply.error) [
    | inl e ↦ rw e (keep q h)
    | inr (x, e) ↦ rw e h
  ]

  module _ (restore : (p : Pass k) → P p → P (reconcile_archive_restore {k = k} p).1)
      (pod : (p : Pass k) → P p → restore_done k p.rpc ≡ true → P (reconcile_pod {k = k} p).1)
      (monitor : (p : Pass k) → P p → P (reconcile_pod_monitor {k = k} p).1) where
    monitor_stage-keeps : (p : Pass k) → P p → P (monitor_stage {k = k} p).1
    unfolding monitor_stage
    monitor_stage-keeps p h = >>=-keeps {P = P} reconcile_pod_monitor _ p (monitor p h) (λ a q g. g)

    pod_stage-keeps : (p : Pass k) → P p → restore_done k p.rpc ≡ true → P (pod_stage {k = k} p).1
    unfolding pod_stage
    pod_stage-keeps p h d =
        >>=-keeps {P = P} reconcile_pod (proceed monitor_stage) p (pod p h d)
          (proceed-keeps monitor_stage monitor_stage-keeps)

    gate_stage-keeps : (p : Pass k) → P p → P (gate_stage {k = k} p).1
    unfolding gate_stage
    gate_stage-keeps p h = elim (Bool-cases (restore_done k p.rpc)) [
      | inl e ↦ rw e (pod_stage-keeps p h e)
      | inr e ↦ rw e h
    ]

    pub restore_stage-keeps : (p : Pass k) → P p → P (restore_stage {k = k} p).1
    unfolding restore_stage
    restore_stage-keeps p h =
        >>=-keeps {P = P} reconcile_archive_restore (proceed gate_stage) p (restore p h)
          (proceed-keeps gate_stage gate_stage-keeps)

    module _ (pvc : (p : Pass k) → P p → P (reconcile_pvc {k = k} p).1) where
      pub pvc_stage-keeps : (p : Pass k) → P p → P (pvc_stage {k = k} p).1
      unfolding pvc_stage
      pvc_stage-keeps p h =
          >>=-keeps {P = P} reconcile_pvc (proceed restore_stage) p (pvc p h)
            (proceed-keeps restore_stage restore_stage-keeps)

      after_initialize-keeps :
          (e : Option (Error k.Fault)) (q : Pass k) → P q → P (after_initialize {k = k} e q).1
      after_initialize-keeps (some e) q h = h
      after_initialize-keeps none q h = pvc_stage-keeps q h

      -- The conditions of a resource are initialised if it has none.
      module _ (initial : (p : Pass k) → P p → P (set_phases {k = k} (initial_phases k) p).1) where
        initialize_if-keeps :
            (cs : List Condition) (p : Pass k) → P p → P (initialize_if {k = k} cs p).1
        initialize_if-keeps [] p h = initial p h
        initialize_if-keeps (c ∷ cs) p h = h

        initialize-keeps : (p : Pass k) → P p → P (initialize {k = k} p).1
        unfolding initialize
        initialize-keeps p h = initialize_if-keeps p.rpc.status.conditions p h

        pub fetched-keeps :
            (rpc : StarknetRpc) (p : Pass k)
            → P (record p { rpc = rpc })
            → P (after_fetch {k = k} (ok rpc) p).1
        unfolding after_fetch
        fetched-keeps rpc p h =
            >>=-keeps {P = P} initialize after_initialize (record p { rpc = rpc })
              (initialize-keeps (record p { rpc = rpc }) h) after_initialize-keeps

        -- The run after the fetch: with an error, or with the resource that was fetched.
        pub after_fetch-keeps :
            (a : Answer k.Fault StarknetRpc) (p : Pass k)
            → P p
            → ((rpc : StarknetRpc) → P (record p { rpc = rpc }))
            → P (after_fetch {k = k} a p).1
        unfolding after_fetch
        after_fetch-keeps (err f) p h fetched = elim (Bool-cases (k.is_not_found f)) [
          | inl e ↦ rw e h
          | inr e ↦ rw e h
        ]
        after_fetch-keeps (ok rpc) p h fetched = fetched-keeps rpc p (fetched rpc)
