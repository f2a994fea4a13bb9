-- ===== src/History/Waiting.antt =====
-- The handler of the restore, in each phase in which it is not done.
use starknet_operators.Prelude.{
  arith, inl, inr, ◌⊎◌, ◌≡◌, refl, ap, ◌∙◌, true, false, if◌then◌else◌,
}
use starknet_operators.Kubernetes.Meta.{NamespacedName, object_key}
use starknet_operators.Kubernetes.Core.{Pvc}
use starknet_operators.Kubernetes.Client.{Kube, Answer, ok, err, HasConditions, KeepsStatus}
use starknet_operators.V1alpha1.{StarknetRpc}
use starknet_operators.Pass.{Pass, create, get, pvc_stored, job_stored}
use starknet_operators.Controller.Manifest.Names.{get_storage_pvc_name}
use starknet_operators.Controller.Manifest.Storage.{get_wanted_restore_pvc}
use starknet_operators.Controller.Pvc.{ensure_pvc_ready}
use starknet_operators.Controller.Restore.{after_get_pvc, fetch_pvc, after_create_pvc, start}
use starknet_operators.History.Settles.{IsExisting, IsBound}
use starknet_operators.History.Life.{
  Phase, fresh, stored, claimed, bound, running, finished, restored, is_fresh, is_stored,
  is_restored, has_bound, advance, Follows, IsNew, IsUnbound, Retries,
}
use starknet_operators.History.Judging.{run_job-Retries}

module _ {k : Kube} (name : NamespacedName) (phase : k.World → Phase)
    (server : Follows k name phase) (conditions : HasConditions k) (status : KeepsStatus k) where
  pub bound_pvc-Retries :
      (φ : Phase) (a : Answer k.Fault Pvc) (p : Pass k)
      → IsBound a
      → phase p.world ≡ φ
      → has_bound φ ≡ true
      → Retries phase (advance φ) (after_get_pvc {k = k} a p)
  unfolding after_get_pvc ensure_pvc_ready get
  bound_pvc-Retries φ (err f) p ready at has_claims = absurd ready
  bound_pvc-Retries φ (ok pvc) p ready at has_claims =
      let n = get_storage_pvc_name p.rpc in
      ground (
        arith,
        ready,
        server.binds n p.world (ap has_bound at ∙ has_claims),
        run_job-Retries name phase server conditions status φ (get {k = k} k.pvcs n p).1
            (server.reads_pvc n p.world ∙ at) has_claims,
      )

  pub unbound_pvc-Retries :
      (a : Answer k.Fault Pvc) (p : Pass k)
      → IsUnbound k a
      → phase p.world ≡ claimed
      → Retries phase claimed (after_get_pvc {k = k} a p)
  unfolding after_get_pvc
  unbound_pvc-Retries (err f) p waiting at = ground (arith, waiting)
  unbound_pvc-Retries (ok pvc) p waiting at = ground (arith, waiting)

  -- The scratch claim is there.
  pub fetch_pvc-Retries :
      (φ : Phase) (pvc : Pvc) (p : Pass k)
      → phase p.world ≡ φ
      → (φ ≡ claimed) ⊎ (has_bound φ ≡ true)
      → Retries phase (advance φ) (fetch_pvc {k = k} pvc p)
  unfolding fetch_pvc get
  fetch_pvc-Retries φ pvc p at (inl waiting) =
      let n = object_key pvc.meta in
      rw waiting (
        unbound_pvc-Retries (k.pvcs.get n p.world).0 (get {k = k} k.pvcs n p).1
          (server.unbound n p.world (at ∙ waiting)) (server.reads_pvc n p.world ∙ at ∙ waiting))
  fetch_pvc-Retries φ pvc p at (inr has_claims) =
      let n = object_key pvc.meta in
      bound_pvc-Retries φ (k.pvcs.get n p.world).0 (get {k = k} k.pvcs n p).1
        (server.binds n p.world (ap has_bound at ∙ has_claims)) (server.reads_pvc n p.world ∙ at)
        has_claims

  pub scratch_answer :
      (φ : Phase) (r : StarknetRpc) (w : k.World)
      → phase w ≡ φ
      → is_fresh φ ≡ false
      → IsNew k (is_stored φ) (k.pvcs.create (get_wanted_restore_pvc r) w).0
        × (phase (k.pvcs.create (get_wanted_restore_pvc r) w).1
            ≡ (if is_stored φ then claimed else φ))
  scratch_answer φ r w at begun =
      let answer = server.scratch r w (ap is_fresh at ∙ begun) in rw at at answer

  pub existing_pvc-Retries :
      (φ : Phase) (wanted : Pvc) (a : Answer k.Fault Pvc) (p : Pass k)
      → IsExisting k a
      → phase p.world ≡ φ
      → (φ ≡ claimed) ⊎ (has_bound φ ≡ true)
      → Retries phase (advance φ) (after_create_pvc {k = k} wanted a p)
  unfolding after_create_pvc
  existing_pvc-Retries φ wanted (ok pvc) p there at which = absurd there
  existing_pvc-Retries φ wanted (err f) p there at which =
      rw there (fetch_pvc-Retries φ wanted p at which)

  pub new_pvc-Retries :
      (wanted : Pvc) (a : Answer k.Fault Pvc) (p : Pass k)
      → IsNew k true a
      → phase p.world ≡ claimed
      → Retries phase claimed (after_create_pvc {k = k} wanted a p)
  unfolding after_create_pvc
  new_pvc-Retries wanted (ok pvc) p new at = fetch_pvc-Retries claimed pvc p at (inl refl)
  new_pvc-Retries wanted (err f) p new at = absurd new

  -- The scratch claim was there.
  pub old_scratch-Retries :
      (φ : Phase) (p : Pass k)
      → phase p.world ≡ φ
      → is_fresh φ ≡ false
      → is_stored φ ≡ false
      → (φ ≡ claimed) ⊎ (has_bound φ ≡ true)
      → Retries phase (advance φ) (start {k = k} p.rpc p)
  unfolding start create
  old_scratch-Retries φ p at begun old which =
      let x = get_wanted_restore_pvc p.rpc in
      let (there, same) = rw old at (scratch_answer φ p.rpc p.world at begun) in
      existing_pvc-Retries φ x (k.pvcs.create x p.world).0 (create {k = k} k.pvcs x p).1 there same
        which

  pub start-Retries :
      (φ : Phase) (p : Pass k)
      → phase p.world ≡ φ
      → is_fresh φ ≡ false
      → is_restored φ ≡ false
      → Retries phase (advance φ) (start {k = k} p.rpc p)
  unfolding start create
  start-Retries stored p at begun undone =
      let x = get_wanted_restore_pvc p.rpc in
      let (made, moved) = scratch_answer stored p.rpc p.world at begun in
      new_pvc-Retries x (k.pvcs.create x p.world).0 (create {k = k} k.pvcs x p).1 made moved
  start-Retries claimed p at begun undone = old_scratch-Retries claimed p at refl refl (inl refl)
  start-Retries bound p at begun undone = old_scratch-Retries bound p at refl refl (inr refl)
  start-Retries running p at begun undone = old_scratch-Retries running p at refl refl (inr refl)
  start-Retries finished p at begun undone = old_scratch-Retries finished p at refl refl (inr refl)
  start-Retries fresh p at begun undone = absurd (cc)
  start-Retries restored p at begun undone = absurd (cc)
