-- ===== src/Phases/Idle.antt =====
-- The results that ask for another run, and those that do not.
use mathlib.Core.Path.{subst}
use starknet_operators.Prelude.{
  arith, ◌≡◌, Bool, true, false, ltb, ◌||◌, inl, inr, Option, none, some, Bool-cases,
}
use starknet_operators.Prog.{Outcome, ret, panic, continue, Returns}
use starknet_operators.Kubernetes.Meta.{NamespacedName}
use starknet_operators.Kubernetes.Client.{Kube, ok}
use starknet_operators.V1alpha1.{StarknetRpc}
use starknet_operators.Condition.Initialize.{initialize}
use starknet_operators.Pass.{Pass, M, Reply, Error, next_loop, Result, get_rpc}
use starknet_operators.Controller.Pvc.{reconcile_pvc}
use starknet_operators.Controller.Restore.{restore_done, reconcile_archive_restore}
use starknet_operators.Controller.Reconcile.{
  Verdict, proceed, gate_stage, restore_stage, pvc_stage, after_initialize, after_fetch, reconcile,
}
use starknet_operators.Phases.Gate.{creates_pod}
use starknet_operators.Phases.Progress.{gate_stage-creates}

abbrev asks : Option Result → Bool
asks none = false
asks (some r) = r.requeue || ltb 0 r.requeue_after

abbrev asks_again : {F : Type 0} → Option Result → Option (Error F) → Bool
asks_again result (some next_loop) = asks result
asks_again result _ = true

-- A reply with `ErrNextLoop` says when to run again.
abbrev AsksAgain : {F : Type 0} → Reply F → Type 0
AsksAgain reply = asks_again reply.result reply.error ≡ true

-- The run ended without an error and asks for no other one.
abbrev pub IsIdle : {F : Type 0} → Verdict F → Type 0
IsIdle v = (v.error ≡ none) × (asks (some v.result) ≡ false)

-- If the run is idle, a pod creation is among its calls.
abbrev Settles : {k : Kube} → Outcome (Verdict k.Fault) → Pass k → Type 0
Settles panic p = Unit
Settles (ret v) p = IsIdle v → creates_pod p.calls ≡ true

module _ {k : Kube} where
  settled :
      (o : Outcome (Verdict k.Fault)) (p : Pass k)
      → creates_pod p.calls ≡ true
      → Settles {k = k} o p
  settled panic p h = tt
  settled (ret v) p h = λ idle. h

  gate_stage-waits :
      (p : Pass k)
      → restore_done k p.rpc ≡ false
      → Settles {k = k} (gate_stage {k = k} p).0 (gate_stage {k = k} p).1
  unfolding gate_stage
  gate_stage-waits p e = rw e (λ idle. ground (arith, idle.1))

  gate_stage-Settles :
      (p : Pass k) → Settles {k = k} (gate_stage {k = k} p).0 (gate_stage {k = k} p).1
  gate_stage-Settles p = elim (Bool-cases (restore_done k p.rpc)) [
    | inl e ↦ settled (gate_stage {k = k} p).0 (gate_stage {k = k} p).1 (gate_stage-creates p e)
    | inr e ↦ gate_stage-waits p e
  ]

  proceed-Settles :
      (rest : M k (Verdict k.Fault)) (go : (q : Pass k) → Settles {k = k} (rest q).0 (rest q).1)
      (o : Outcome (Reply k.Fault)) (p : Pass k)
      → Returns AsksAgain o
      → Settles {k = k}
          (continue o (proceed {k = k} rest) p).0
          (continue o (proceed {k = k} rest) p).1
  proceed-Settles rest go panic p h = tt
  proceed-Settles rest go (ret reply) p h = ground (arith, go p)

  reconcile_archive_restore-AsksAgain :
      (p : Pass k) → Returns AsksAgain (reconcile_archive_restore {k = k} p).0
  unfolding reconcile_archive_restore
  reconcile_archive_restore-AsksAgain p = ground arith

  reconcile_pvc-AsksAgain : (p : Pass k) → Returns AsksAgain (reconcile_pvc {k = k} p).0
  unfolding reconcile_pvc
  reconcile_pvc-AsksAgain p = ground arith

  restore_stage-Settles :
      (p : Pass k) → Settles {k = k} (restore_stage {k = k} p).0 (restore_stage {k = k} p).1
  unfolding restore_stage
  restore_stage-Settles p =
      proceed-Settles gate_stage gate_stage-Settles (reconcile_archive_restore {k = k} p).0
        (reconcile_archive_restore {k = k} p).1 (reconcile_archive_restore-AsksAgain p)

  pvc_stage-Settles : (p : Pass k) → Settles {k = k} (pvc_stage {k = k} p).0 (pvc_stage {k = k} p).1
  unfolding pvc_stage
  pvc_stage-Settles p =
      proceed-Settles restore_stage restore_stage-Settles (reconcile_pvc {k = k} p).0
        (reconcile_pvc {k = k} p).1 (reconcile_pvc-AsksAgain p)

  after_initialize-Settles :
      (o : Outcome (Option (Error k.Fault))) (p : Pass k)
      → Settles {k = k}
          (continue o (after_initialize {k = k}) p).0
          (continue o (after_initialize {k = k}) p).1
  after_initialize-Settles panic p = tt
  after_initialize-Settles (ret (some e)) p = λ idle. ground (arith, idle.0)
  after_initialize-Settles (ret none) p = pvc_stage-Settles p

  reconcile-Settles :
      (req : NamespacedName) (p : Pass k) (rpc : StarknetRpc)
      → (k.get_rpc req p.world).0 ≡ ok rpc
      → Settles {k = k} (reconcile {k = k} req p).0 (reconcile {k = k} req p).1
  unfolding reconcile after_fetch get_rpc
  reconcile-Settles req p rpc found =
      let q : Pass k = record (get_rpc {k = k} req p).1 { rpc = rpc } in
      rw found (after_initialize-Settles (initialize {k = k} q).0 (initialize {k = k} q).1)

  -- If a run fetches its resource, ends without an error, and its result asks for no other run,
  -- then the creation of a pod is among the calls of the pass: no run that stops earlier is left
  -- without a retry.
  pub idle-creates_pod :
      (req : NamespacedName) (p : Pass k) (rpc : StarknetRpc) (v : Verdict k.Fault)
      → (k.get_rpc req p.world).0 ≡ ok rpc
      → (reconcile {k = k} req p).0 ≡ ret v
      → IsIdle v
      → creates_pod (reconcile {k = k} req p).1.calls ≡ true
  idle-creates_pod req p rpc v found ends =
      subst (λ o. Settles {k = k} o (reconcile {k = k} req p).1) ends
        (reconcile-Settles req p rpc found)
