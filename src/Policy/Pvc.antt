-- ===== src/Policy/Pvc.antt =====
-- The calls of the initialisation and of the storage claim's handlers.
use starknet_operators.Prelude.{arith, List}
use starknet_operators.Kubernetes.Client.{Kube}
use starknet_operators.Pass.{Pass}
use starknet_operators.Condition.{StateTransition, set_phases}
use starknet_operators.Controller.Pvc.{reconcile_pvc}
use starknet_operators.Policy.{Obeys}

module _ {k : Kube} (p : Pass k) where
  pub set_phases-Obeys : (ts : List StateTransition) → Obeys p → Obeys (set_phases ts p).1
  unfolding set_phases
  set_phases-Obeys ts h = ground arith

  pub reconcile_pvc-Obeys : Obeys p → Obeys (reconcile_pvc p).1
  unfolding reconcile_pvc
  reconcile_pvc-Obeys h = ground arith
