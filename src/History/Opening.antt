-- ===== src/History/Opening.antt =====
-- The start of a run, up to the storage claim, in each phase in which the restore is not done.
use starknet_operators.Prelude.{arith, ◌≡◌, refl, ap, ◌∙◌, false, none, List, [], ◌∷◌}
use starknet_operators.Kubernetes.Meta.{NamespacedName, Condition}
use starknet_operators.Kubernetes.Client.{Kube, HasConditions, KeepsStatus}
use starknet_operators.Pass.{Pass, done, create, pvc_stored, job_stored}
use starknet_operators.Condition.{StateTransition, set_phases, apply_all}
use starknet_operators.Condition.Available
use starknet_operators.Condition.Restore
use starknet_operators.Condition.Initialize.{initialize_if, initial_phases}
use starknet_operators.Controller.Manifest.Storage.{get_wanted_pvc}
use starknet_operators.Controller.Pvc.{reconcile_pvc}
use starknet_operators.Controller.Restore.{restore_done}
use starknet_operators.History.Life.{
  Phase, fresh, is_fresh, is_restored, stored, claimed, bound, running, finished, restored, advance,
  Follows, At, Leads, with_storage,
}

-- What the storage claim makes of a phase is no other start, and leads to the same.
pub with_storage-begun :
    (φ : Phase)
    → is_restored φ ≡ false
    → (is_fresh (with_storage φ) ≡ false)
      × (is_restored (with_storage φ) ≡ false)
      × (advance (with_storage φ) ≡ advance φ)
with_storage-begun fresh wanted = (refl, refl, refl)
with_storage-begun stored wanted = (refl, refl, refl)
with_storage-begun claimed wanted = (refl, refl, refl)
with_storage-begun bound wanted = (refl, refl, refl)
with_storage-begun running wanted = (refl, refl, refl)
with_storage-begun finished wanted = (refl, refl, refl)
with_storage-begun restored wanted = absurd (cc)

module _ {k : Kube} (name : NamespacedName) (phase : k.World → Phase)
    (server : Follows k name phase) (conditions : HasConditions k) (status : KeepsStatus k) where
  pub set_phases-Leads :
      (ts : List StateTransition) (φ : Phase) (p : Pass k)
      → (apply_all ts p.rpc).spec ≡ p.rpc.spec
      → restore_done k (apply_all ts p.rpc) ≡ false
      → is_restored φ ≡ false
      → At phase φ p
      → Leads phase none (At phase φ) (set_phases {k = k} ts p)
  unfolding set_phases
  set_phases-Leads ts φ p same undone wanted at =
      let r = apply_all ts p.rpc in
      ground (
        arith,
        wanted,
        server.accepts r p.world,
        server.writes r p.world (ap is_restored at.0 ∙ wanted),
        status.echo r p.world,
      )

  pub initialize_if-Leads :
      (cs : List Condition) (φ : Phase) (p : Pass k)
      → is_restored φ ≡ false
      → At phase φ p
      → Leads phase none (At phase φ) (initialize_if {k = k} cs p)
  unfolding apply_all Restore.apply Available.apply
  initialize_if-Leads [] φ p wanted at =
      let cs = p.rpc.status.conditions in
      let r = Restore.as_condition Restore.pending in
      let a = Available.as_condition Available.pending in
      set_phases-Leads (initial_phases k) φ p refl
        (ground (
          arith,
          conditions.is_true-set (k.set_status_condition cs r) a "Restore",
          conditions.is_true-set cs r "Restore",
        ))
        wanted at
  initialize_if-Leads (c ∷ cs) φ p wanted at = (refl, at)

  pub reconcile_pvc-Leads :
      (φ : Phase) (p : Pass k)
      → is_restored φ ≡ false
      → At phase φ p
      → Leads phase done (At phase (with_storage φ)) (reconcile_pvc {k = k} p)
  unfolding reconcile_pvc create Restore.apply
  reconcile_pvc-Leads φ p wanted at =
      let reset = Restore.apply k Restore.pending p.rpc in
      let w = (k.pvcs.create (get_wanted_pvc p.rpc) p.world).1 in
      ground (
        arith,
        server.storage p.rpc p.world,
        server.accepts reset w,
        wanted,
        server.writes reset w,
        status.echo reset w,
        conditions.is_true-set p.rpc.status.conditions (Restore.as_condition Restore.pending)
            "Restore",
      )
