-- ===== src/Phases/Calls.antt =====
-- How many calls a run makes.
use starknet_operators.Prelude.{
  ℕ, ◌+◌, ◌≤◌, arith, length, ◌≡◌, refl, Bool-cases, Option-cases, inl, inr, Option, none, some,
  List, [], ◌∷◌,
}
use starknet_operators.Prog.{>>=-keeps, Outcome, ret, panic, continue}
use starknet_operators.Kubernetes.Meta.{NamespacedName, Condition}
use starknet_operators.Kubernetes.Client.{Kube, Answer, ok, err}
use starknet_operators.V1alpha1.{StarknetRpc}
use starknet_operators.Pass.{Pass, M, Error, Reply, begin, get_rpc}
use starknet_operators.Condition.{StateTransition, set_phases}
use starknet_operators.Condition.Initialize.{initialize_if, initialize, initial_phases}
use starknet_operators.Controller.Pvc.{reconcile_pvc}
use starknet_operators.Controller.Restore.{restore_done, reconcile_archive_restore}
use starknet_operators.Controller.Pod.{reconcile_pod}
use starknet_operators.Controller.PodMonitor.{reconcile_pod_monitor}
use starknet_operators.Controller.Reconcile.{
  Verdict, proceed, monitor_stage, pod_stage, gate_stage, restore_stage, pvc_stage,
  after_initialize, after_fetch, reconcile,
}

module _ {k : Kube} where
  -- From here on, at most so many calls are made.
  abbrev Makes : {A : Type 0} → ℕ → Pass k → Outcome A × Pass k → Type 0
  Makes n p r = length r.1.calls ≤ n + length p.calls

  set_phases-Makes : (ts : List StateTransition) (p : Pass k) → Makes 1 p (set_phases {k = k} ts p)
  unfolding set_phases
  set_phases-Makes ts p = ground arith

  reconcile_pvc-Makes : (p : Pass k) → Makes 2 p (reconcile_pvc {k = k} p)
  unfolding reconcile_pvc
  reconcile_pvc-Makes p = ground arith

  restore-Makes : (p : Pass k) → Makes 6 p (reconcile_archive_restore {k = k} p)
  unfolding reconcile_archive_restore
  restore-Makes p = ground arith

  pod-Makes : (p : Pass k) → Makes 5 p (reconcile_pod {k = k} p)
  unfolding reconcile_pod
  pod-Makes p = ground arith

  monitor-Makes : (p : Pass k) → Makes 4 p (reconcile_pod_monitor {k = k} p)
  unfolding reconcile_pod_monitor
  monitor-Makes p = ground arith

  -- A restore that lets the run go on makes fewer.
  passed-Makes :
      (p : Pass k) (reply : Reply k.Fault)
      → (reconcile_archive_restore {k = k} p).0 ≡ ret reply
      → reply.error ≡ none
      → Makes 2 p (reconcile_archive_restore {k = k} p)
  unfolding reconcile_archive_restore
  passed-Makes p reply returned fine = ground arith

  -- The rest is reached only without an error.
  proceed-Makes :
      (m n : ℕ) (rest : M k (Verdict k.Fault)) (reply : Reply k.Fault) (p q : Pass k)
      → length q.calls ≤ m + length p.calls
      → Makes n q (rest q)
      → Makes (m + n) p (proceed {k = k} rest reply q)
  proceed-Makes m n rest reply p q first then = elim (Option-cases reply.error) [
    | inl e ↦ rw e (omega (arith, first, then))
    | inr (x, e) ↦ rw e (omega (arith, first))
  ]

  continue-Makes :
      (m n : ℕ) (rest : M k (Verdict k.Fault)) (o : Outcome (Reply k.Fault)) (p q : Pass k)
      → length q.calls ≤ m + length p.calls
      → Makes n q (rest q)
      → Makes (m + n) p (continue o (proceed {k = k} rest) q)
  continue-Makes m n rest panic p q first then = omega (arith, first)
  continue-Makes m n rest (ret reply) p q first then = proceed-Makes m n rest reply p q first then

  monitor_stage-Makes : (p : Pass k) → Makes 4 p (monitor_stage {k = k} p)
  unfolding monitor_stage
  monitor_stage-Makes p =
      >>=-keeps {P = λ (q : Pass k). length q.calls ≤ 4 + length p.calls} reconcile_pod_monitor _ p
        (monitor-Makes p) (λ a q g. g)

  pod_stage-Makes : (p : Pass k) → Makes 9 p (pod_stage {k = k} p)
  unfolding pod_stage
  pod_stage-Makes p =
      let after = reconcile_pod {k = k} p in
      continue-Makes 5 4 monitor_stage after.0 p after.1 (pod-Makes p) (monitor_stage-Makes after.1)

  gate_stage-Makes : (p : Pass k) → Makes 9 p (gate_stage {k = k} p)
  unfolding gate_stage
  gate_stage-Makes p = elim (Bool-cases (restore_done k p.rpc)) [
    | inl e ↦ rw e (pod_stage-Makes p)
    | inr e ↦ rw e (omega arith)
  ]

  restored-Makes :
      (o : Outcome (Reply k.Fault)) (p q : Pass k)
      → length q.calls ≤ 6 + length p.calls
      → ((reply : Reply k.Fault)
          → o ≡ ret reply
          → reply.error ≡ none
          → length q.calls ≤ 2 + length p.calls)
      → Makes 11 p (continue o (proceed {k = k} gate_stage) q)
  restored-Makes panic p q all passed = omega (arith, all)
  restored-Makes (ret reply) p q all passed = elim (Option-cases reply.error) [
    | inl e ↦ rw e (omega (arith, passed reply refl e, gate_stage-Makes q))
    | inr (x, e) ↦ rw e (omega (arith, all))
  ]

  restore_stage-Makes : (p : Pass k) → Makes 11 p (restore_stage {k = k} p)
  unfolding restore_stage
  restore_stage-Makes p =
      let after = reconcile_archive_restore {k = k} p in
      restored-Makes after.0 p after.1 (restore-Makes p) (passed-Makes p)

  pvc_stage-Makes : (p : Pass k) → Makes 13 p (pvc_stage {k = k} p)
  unfolding pvc_stage
  pvc_stage-Makes p =
      let after = reconcile_pvc {k = k} p in
      continue-Makes 2 11 restore_stage after.0 p after.1 (reconcile_pvc-Makes p)
        (restore_stage-Makes after.1)

  after_initialize-Makes :
      (o : Outcome (Option (Error k.Fault))) (p q : Pass k)
      → length q.calls ≤ 1 + length p.calls
      → Makes 14 p (continue o (after_initialize {k = k}) q)
  after_initialize-Makes panic p q first = omega (arith, first)
  after_initialize-Makes (ret (some e)) p q first = omega (arith, first)
  after_initialize-Makes (ret none) p q first = omega (arith, first, pvc_stage-Makes q)

  initialize_if-Makes : (cs : List Condition) (p : Pass k) → Makes 1 p (initialize_if {k = k} cs p)
  initialize_if-Makes [] p = set_phases-Makes (initial_phases k) p
  initialize_if-Makes (c ∷ cs) p = omega arith

  after_fetch-Makes :
      (a : Answer k.Fault StarknetRpc) (p : Pass k) → Makes 14 p (after_fetch {k = k} a p)
  unfolding after_fetch initialize
  after_fetch-Makes (err f) p = ground arith
  after_fetch-Makes (ok r) p =
      let q = record p { rpc = r } in
      let after = initialize_if {k = k} r.status.conditions q in
      after_initialize-Makes after.0 q after.1 (initialize_if-Makes r.status.conditions q)

-- For every server, request and state of the server, a run makes at most 15 calls to the server,
-- whatever is answered and whether it ends with an error, with a panic or well.
pub reconcile-calls_bounded :
    (k : Kube) (req : NamespacedName) (w : k.World)
    → length (reconcile {k = k} req (begin w)).1.calls ≤ 15
unfolding reconcile get_rpc
reconcile-calls_bounded k req w =
    let p = (get_rpc {k = k} req (begin w)).1 in
    omega (arith, after_fetch-Makes (k.get_rpc req w).0 p)
