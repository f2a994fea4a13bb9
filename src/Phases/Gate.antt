-- ===== src/Phases/Gate.antt =====
-- The runs in which a restore is wanted and not done.
use starknet_operators.Prelude.{
  arith, ◌≡◌, refl, ap, ◌∙◌, inl, inr, Option-cases, ◌≢◌, if◌then◌else◌, Bool, true, false, none,
  List, [], ◌∷◌,
}
use starknet_operators.Prog.{Outcome, ret, panic, continue, Returns}
use starknet_operators.Kubernetes.Core.{Pvc}
use starknet_operators.Controller.Manifest.Storage.{get_wanted_pvc}
use starknet_operators.Controller.Pvc.{reconcile_pvc}
use starknet_operators.Controller.Reconcile.{Verdict, proceed, gate_stage, restore_stage, pvc_stage}
use starknet_operators.Phases.Reset.{reconcile_pvc-resets}
use starknet_operators.Kubernetes.Client.{Kube, ok, HasConditions, KeepsStatus}
use starknet_operators.Pass.{Pass, M, Reply, Entry, Call, create_call, of_pod}
use starknet_operators.Controller.Restore.{is_disabled, reconcile_archive_restore}
use starknet_operators.Policy.{IsRestoring}

abbrev is_pod_creation : Call → Bool
is_pod_creation (create_call (of_pod _)) = true
is_pod_creation _ = false

abbrev pub creates_pod : List Entry → Bool
creates_pod [] = false
creates_pod (e ∷ before) = if is_pod_creation e.call then true else creates_pod before

module _ {k : Kube} where
  reconcile_archive_restore-waits :
      (p : Pass k)
      → IsRestoring k p.rpc
      → Returns (λ reply. reply.error ≢ none) (reconcile_archive_restore {k = k} p).0
  unfolding reconcile_archive_restore
  reconcile_archive_restore-waits p r = ground arith

  reconcile_archive_restore-creates_pod :
      (p : Pass k) → creates_pod (reconcile_archive_restore {k = k} p).1.calls ≡ creates_pod p.calls
  unfolding reconcile_archive_restore
  reconcile_archive_restore-creates_pod p = ground arith

  stopped :
      (rest : M k (Verdict k.Fault)) (o : Outcome (Reply k.Fault)) (t : Pass k)
      → Returns (λ reply. reply.error ≢ none) o
      → (continue o (proceed {k = k} rest) t).1 ≡ t
  stopped rest panic t h = refl
  stopped rest (ret reply) t h = ground arith

  -- While the restore is not disabled and not done, the stages from the restore on add no pod
  -- creation to the calls of the run, whatever the server answers.
  pub restore_stage-waits :
      (p : Pass k)
      → IsRestoring k p.rpc
      → creates_pod (restore_stage {k = k} p).1.calls ≡ creates_pod p.calls
  unfolding restore_stage
  restore_stage-waits p r =
      let q = (reconcile_archive_restore {k = k} p).1 in
      ap (λ (t : Pass k). creates_pod t.calls)
        (stopped gate_stage (reconcile_archive_restore {k = k} p).0 q
          (reconcile_archive_restore-waits p r))
      ∙ reconcile_archive_restore-creates_pod p

  reconcile_pvc-creates_pod :
      (p : Pass k) → creates_pod (reconcile_pvc {k = k} p).1.calls ≡ creates_pod p.calls
  unfolding reconcile_pvc
  reconcile_pvc-creates_pod p = ground arith

module _ {k : Kube} (conditions : HasConditions k) (status : KeepsStatus k) where
  after_claim-waits :
      (p : Pass k) (pvc : Pvc) (o : Outcome (Reply k.Fault))
      → (reconcile_pvc {k = k} p).0 ≡ o
      → (k.pvcs.create (get_wanted_pvc p.rpc) p.world).0 ≡ ok pvc
      → is_disabled p.rpc.spec.restore_archive.enable ≡ false
      → creates_pod (continue o (proceed {k = k} restore_stage) (reconcile_pvc {k = k} p).1).1.calls
        ≡ creates_pod p.calls
  after_claim-waits p pvc panic e created wanted = reconcile_pvc-creates_pod p
  after_claim-waits p pvc (ret reply) e created wanted = elim (Option-cases reply.error) [
    | inr (x, q) ↦ rw q (reconcile_pvc-creates_pod p)
    | inl q ↦
        let (reset, same) = reconcile_pvc-resets conditions status p pvc reply created e q in
        rw q (
          restore_stage-waits (reconcile_pvc {k = k} p).1 (reset, rw same wanted)
          ∙ reconcile_pvc-creates_pod p)
  ]

  -- If the conditions and the status behave as documented, the server creates the storage claim,
  -- and the restore is not disabled, then the stages from the claim on add no pod creation to the
  -- calls of the run, even if the resource says that the restore is done.
  pub fresh_claim-waits :
      (p : Pass k) (pvc : Pvc)
      → (k.pvcs.create (get_wanted_pvc p.rpc) p.world).0 ≡ ok pvc
      → is_disabled p.rpc.spec.restore_archive.enable ≡ false
      → creates_pod (pvc_stage {k = k} p).1.calls ≡ creates_pod p.calls
  unfolding pvc_stage
  fresh_claim-waits p pvc = after_claim-waits p pvc (reconcile_pvc {k = k} p).0 refl
