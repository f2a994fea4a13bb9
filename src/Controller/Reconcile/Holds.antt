-- ===== src/Controller/Reconcile/Holds.antt =====
-- What holds of each handler's answer holds of the answers of the stages, and of a whole run.
use starknet_operators.Prelude.{Option, none, some, Bool-cases, inl, inr}
use starknet_operators.Prog.{Holds, >>=-Holds}
use starknet_operators.Kubernetes.Client.{Kube, Answer, ok, err}
use starknet_operators.V1alpha1.{StarknetRpc}
use starknet_operators.Pass.{Pass, M, Error, api, Reply, no_result, after_seconds}
use starknet_operators.Condition.Initialize.{initialize}
use starknet_operators.Controller.Pvc.{reconcile_pvc}
use starknet_operators.Controller.Restore.{restore_done, reconcile_archive_restore}
use starknet_operators.Controller.Pod.{reconcile_pod}
use starknet_operators.Controller.Reconcile.{
  Verdict, finished, broken, proceed, monitor_stage, pod_stage, gate_stage, restore_stage,
  pvc_stage, after_initialize, after_fetch,
}

-- C holds after a panic, R of the replies of the handlers, E of the error of the initialisation,
-- and Q of what a run returns.
module _ {k : Kube} (C : Type 0) (R : Reply k.Fault → Type 0) (E : Option (Error k.Fault) → Type 0)
    (Q : Verdict k.Fault → Type 0)
    (through : (rest : M k (Verdict k.Fault))
      → ((q : Pass k) → Holds C Q (rest q).0)
      → (reply : Reply k.Fault) (q : Pass k) → R reply
      → Holds C Q (proceed {k = k} rest reply q).0)
    (waits : Q (finished (after_seconds 30))) (nothing : Q (finished no_result))
    (unfetched : (f : k.Fault) → Q (broken (api f)))
    (uninitialized : (e : Error k.Fault) → E (some e) → Q (broken e))
    (initial : (p : Pass k) → Holds C E (initialize {k = k} p).0)
    (pvc : (p : Pass k) → Holds C R (reconcile_pvc {k = k} p).0)
    (restore : (p : Pass k) → Holds C R (reconcile_archive_restore {k = k} p).0)
    (pod : (p : Pass k) → Holds C R (reconcile_pod {k = k} p).0)
    (monitor : (p : Pass k) → Holds C Q (monitor_stage {k = k} p).0) where
  pod_stage-Holds : (p : Pass k) → Holds C Q (pod_stage {k = k} p).0
  unfolding pod_stage
  pod_stage-Holds p =
      >>=-Holds C R Q reconcile_pod (proceed monitor_stage) p (pod p)
        (through monitor_stage monitor)

  gate_stage-Holds : (p : Pass k) → Holds C Q (gate_stage {k = k} p).0
  unfolding gate_stage
  gate_stage-Holds p = elim (Bool-cases (restore_done k p.rpc)) [
    | inl e ↦ rw e (pod_stage-Holds p)
    | inr e ↦ rw e waits
  ]

  restore_stage-Holds : (p : Pass k) → Holds C Q (restore_stage {k = k} p).0
  unfolding restore_stage
  restore_stage-Holds p =
      >>=-Holds C R Q reconcile_archive_restore (proceed gate_stage) p (restore p)
        (through gate_stage gate_stage-Holds)

  pvc_stage-Holds : (p : Pass k) → Holds C Q (pvc_stage {k = k} p).0
  unfolding pvc_stage
  pvc_stage-Holds p =
      >>=-Holds C R Q reconcile_pvc (proceed restore_stage) p (pvc p)
        (through restore_stage restore_stage-Holds)

  after_initialize-Holds :
      (e : Option (Error k.Fault)) (q : Pass k) → E e → Holds C Q (after_initialize {k = k} e q).0
  after_initialize-Holds (some e) q h = uninitialized e h
  after_initialize-Holds none q h = pvc_stage-Holds q

  pub after_fetch-Holds :
      (a : Answer k.Fault StarknetRpc) (p : Pass k) → Holds C Q (after_fetch {k = k} a p).0
  unfolding after_fetch
  after_fetch-Holds (err f) p = elim (Bool-cases (k.is_not_found f)) [
    | inl e ↦ rw e nothing
    | inr e ↦ rw e (unfetched f)
  ]
  after_fetch-Holds (ok rpc) p =
      >>=-Holds C E Q initialize after_initialize (record p { rpc = rpc })
        (initial (record p { rpc = rpc })) after_initialize-Holds
