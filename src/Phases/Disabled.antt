-- ===== src/Phases/Disabled.antt =====
-- A resource whose restore is disabled gets its pod in one run.
use starknet_operators.Prelude.{
  arith, ◌≡◌, refl, ap, ◌∙◌, true, Bool-cases, inl, inr, none, some, List, [], ◌∷◌,
}
use starknet_operators.Prog.{Outcome, ret, ◌>>=◌}
use starknet_operators.Kubernetes.Meta.{NamespacedName, Condition, background}
use starknet_operators.Kubernetes.Core.{Pvc, Job}
use starknet_operators.Kubernetes.Client.{Kube, Answer, ok, err, HasConditions, KeepsStatus}
use starknet_operators.V1alpha1.{StarknetRpc}
use starknet_operators.Pass.{Pass, done, create, pvc_stored, begin, get_rpc}
use starknet_operators.Condition.{StateTransition, set_phases, apply_all}
use starknet_operators.Condition.Available
use starknet_operators.Condition.Restore
use starknet_operators.Condition.Initialize.{initialize_if, initialize, initial_phases}
use starknet_operators.Controller.Manifest.Storage.{get_wanted_pvc}
use starknet_operators.Controller.Pvc.{reconcile_pvc}
use starknet_operators.Controller.Restore.{restore_done, is_disabled, mark_restore_as_skipped}
use starknet_operators.Controller.Reconcile.{
  restore_stage, pvc_stage, after_initialize, after_fetch, reconcile,
}
use starknet_operators.Phases.Gate.{creates_pod}
use starknet_operators.Phases.Progress.{
  IsGone, accepted-IsSome, IsAccepted, disabled-creates_pod, done-creates_pod,
}

-- The object is created, or it was there.
abbrev pub IsMade : {A : Type 0} (k : Kube) → Answer k.Fault A → Type 0
IsMade k (ok _) = Unit
IsMade k (err f) = k.is_already_exists f ≡ true

-- A server that makes claims, accepts every status, and deletes what it is asked to delete.
pub record Obliges (k : Kube) : Type 0 where
  pub makes : (x : Pvc) (w : k.World) → IsMade k (k.pvcs.create x w).0
  pub accepts : (r : StarknetRpc) (w : k.World) → IsAccepted (k.update_status r w).0
  pub job_gone : (x : Job) (w : k.World) → IsGone k (k.jobs.delete x (some background) w).0
  pub pvc_gone : (x : Pvc) (w : k.World) → IsGone k (k.pvcs.delete x none w).0

abbrev IsOff : {k : Kube} → Pass k → Type 0
IsOff p = is_disabled p.rpc.spec.restore_archive.enable ≡ true

module _ {k : Kube} (conditions : HasConditions k) (status : KeepsStatus k)
    (server : Obliges k) where
  restore_stage-creates :
      (p : Pass k) → IsOff p → creates_pod (restore_stage {k = k} p).1.calls ≡ true
  restore_stage-creates p off = elim (Bool-cases (restore_done k p.rpc)) [
    | inl e ↦ done-creates_pod conditions status p e server.job_gone server.pvc_gone
    | inr e ↦
        let skipped = mark_restore_as_skipped k p.rpc in
        let (r, sent) =
          accepted-IsSome (k.update_status skipped p.world).0 (server.accepts skipped p.world) in
        disabled-creates_pod conditions status p r e off sent
  ]

  -- The code returns this, with the restore still disabled.
  abbrev StaysOff : {A : Type 0} → A → Outcome A × Pass k → Type 0
  StaysOff a r = (r.0 ≡ ret a) × IsOff r.1

  set_phases-StaysOff :
      (ts : List StateTransition) (p : Pass k)
      → (apply_all ts p.rpc).spec ≡ p.rpc.spec
      → IsOff p
      → StaysOff none (set_phases {k = k} ts p)
  unfolding set_phases
  set_phases-StaysOff ts p same off =
      let r = apply_all ts p.rpc in ground (arith, server.accepts r p.world, status.echo r p.world)

  initialize_if-StaysOff :
      (cs : List Condition) (p : Pass k) → IsOff p → StaysOff none (initialize_if {k = k} cs p)
  unfolding apply_all Restore.apply Available.apply
  initialize_if-StaysOff [] p off = set_phases-StaysOff (initial_phases k) p refl off
  initialize_if-StaysOff (c ∷ cs) p off = (refl, off)

  reconcile_pvc-StaysOff : (p : Pass k) → IsOff p → StaysOff done (reconcile_pvc {k = k} p)
  unfolding reconcile_pvc create Restore.apply
  reconcile_pvc-StaysOff p off =
      let claim = get_wanted_pvc p.rpc in
      let reset = Restore.apply k Restore.pending p.rpc in
      let w = (k.pvcs.create claim p.world).1 in
      ground (arith, server.makes claim p.world, server.accepts reset w, status.echo reset w)

  pvc_stage-creates : (p : Pass k) → IsOff p → creates_pod (pvc_stage {k = k} p).1.calls ≡ true
  unfolding pvc_stage
  pvc_stage-creates p off =
      let (returned, off') = reconcile_pvc-StaysOff p off in
      rw returned (restore_stage-creates (reconcile_pvc {k = k} p).1 off')

  after_initialize-creates :
      (cs : List Condition) (p : Pass k)
      → IsOff p
      → creates_pod ((initialize_if {k = k} cs >>= after_initialize) p).1.calls ≡ true
  after_initialize-creates cs p off =
      let (returned, off') = initialize_if-StaysOff cs p off in
      rw returned (pvc_stage-creates (initialize_if {k = k} cs p).1 off')

  -- If the conditions and the status behave as documented, the server makes the claims or has
  -- them, accepts every status, and deletes what it is asked to delete or does not have it, then
  -- a run that fetches a resource with its restore disabled creates the pod, or tries to,
  -- whatever its conditions are.
  pub disabled_run-creates_pod :
      (name : NamespacedName) (w : k.World) (r : StarknetRpc)
      → (k.get_rpc name w).0 ≡ ok r
      → is_disabled r.spec.restore_archive.enable ≡ true
      → creates_pod (reconcile {k = k} name (begin w)).1.calls ≡ true
  unfolding reconcile after_fetch get_rpc initialize
  disabled_run-creates_pod name w r sent off =
      ap (λ a. creates_pod (after_fetch {k = k} a (get_rpc {k = k} name (begin w)).1).1.calls) sent
      ∙ after_initialize-creates r.status.conditions
          (record (get_rpc {k = k} name (begin w)).1 { rpc = r }) off
