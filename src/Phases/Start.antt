-- ===== src/Phases/Start.antt =====
-- The start of a run: the resource is fetched, and a new one gets its first conditions.
use starknet_operators.Prelude.{
  arith, ◌≡◌, refl, false, none, [], ◌∷◌, Bool-cases, inl, inr, if◌then◌else◌,
}
use starknet_operators.Prog.{ret}
use starknet_operators.Kubernetes.Meta.{NamespacedName}
use starknet_operators.Kubernetes.Client.{Kube, err, HasConditions, KeepsStatus}
use starknet_operators.Pass.{Pass, api, get_call, rpc_kind, no_result, get_rpc}
use starknet_operators.Condition.{set_phases}
use starknet_operators.Condition.Available
use starknet_operators.Condition.Restore
use starknet_operators.Condition.Initialize.{initialize}
use starknet_operators.Controller.Restore.{restore_done}
use starknet_operators.Controller.Reconcile.{finished, broken, after_fetch, reconcile}

-- If the server answers the fetch of the resource with an error, the run makes that one call and
-- keeps its copy; it ends with the empty result, without an error if the resource was not found,
-- and else with the error of the server.
pub reconcile-unfetched :
    {k : Kube} (req : NamespacedName) (p : Pass k) (f : k.Fault)
    → (k.get_rpc req p.world).0 ≡ err f
    → reconcile {k = k} req p ≡ (
      ret (if k.is_not_found f then finished no_result else broken (api f)),
      record {
        world = (k.get_rpc req p.world).1;
        rpc = p.rpc;
        calls = record { call = get_call rpc_kind req; rpc = p.rpc; sent = none } ∷ p.calls;
      },
    )
unfolding reconcile after_fetch get_rpc
reconcile-unfetched {k} req p f failed = elim (Bool-cases (k.is_not_found f)) [
  | inl e ↦ rw (failed, e) refl
  | inr e ↦ rw (failed, e) refl
]

-- If the conditions and the status behave as documented, the resource has no conditions, and
-- their initialisation returns without an error, then neither "Restore" nor "Available" is true
-- in the copy of the run, and the specification is the one it had.
initialize-pending :
    {k : Kube}
    → HasConditions k
    → KeepsStatus k
    → (p : Pass k) → p.rpc.status.conditions ≡ []
    → (initialize {k = k} p).0 ≡ ret none
    → let after = (initialize {k = k} p).1.rpc in
      (restore_done k after ≡ false)
      × (k.is_status_condition_true after.status.conditions "Available" ≡ false)
      × (after.spec ≡ p.rpc.spec)
unfolding initialize set_phases Restore.apply Available.apply
initialize-pending {k} conditions status p new fine =
    let cs = p.rpc.status.conditions in
    let r = Restore.as_condition Restore.pending in
    let a = Available.as_condition Available.pending in
    let set_r = k.set_status_condition cs r in
    ground (
      arith,
      conditions.is_true-set set_r a "Restore",
      conditions.is_true-set cs r "Restore",
      conditions.is_true-set set_r a "Available",
      status.echo (Available.apply k Available.pending (Restore.apply k Restore.pending p.rpc))
          p.world,
    )
