-- ===== src/History/Kept.antt =====
-- A restored resource over any number of runs: its restore stays done, and its claim stays there.
use starknet_operators.Prelude.{
  arith, ◌≡◌, refl, sym, ap, ◌∙◌, Bool, true, false, String, List, [], ◌∷◌, All,
}
use starknet_operators.Kubernetes.Meta.{NamespacedName, Condition}
use starknet_operators.Kubernetes.Client.{Kube, Answer, ok, err, HasConditions, KeepsStatus}
use starknet_operators.Kubernetes.Core.{Pvc}
use starknet_operators.V1alpha1.{StarknetRpc}
use starknet_operators.Pass.{Call, get_call, Entry, Pass, begin, get_rpc, get_call, rpc_kind}
use starknet_operators.Prog.{◌>>=◌}
use starknet_operators.Condition.Initialize.{initialize_if}
use starknet_operators.Controller.Manifest.Storage.{get_wanted_pvc}
use starknet_operators.Controller.Restore.{restore_done}
use starknet_operators.Controller.Reconcile.{after_initialize, after_fetch, pvc_stage, reconcile}
use starknet_operators.Policy.Claims.{KeepsStorage, reconcile-KeepsStorage}
use starknet_operators.History.Steps.{Reach, here, later, run, other}
use starknet_operators.History.Replay.{perform, replay, reconcile-replays}
use starknet_operators.History.Remains.{sends_undone, restarts, resets, IsDone, pvc_stage-IsDone}

-- What the server holds of one resource: whether its restore is done, and whether its storage claim exists.
pub record Holding (k : Kube) : Type 0 where
  pub done : k.World → Bool
  pub claimed : k.World → Bool

abbrev pub IsRefused : {F A : Type 0} → Answer F A → Type 0
IsRefused (ok _) = ⊥
IsRefused (err _) = Unit

pub record IsHolding (k : Kube) (name : NamespacedName) (holding : Holding k) : Type 0 where
  -- Without conditions, none is true.
  pub empty : (t : String) → k.is_status_condition_true [] t ≡ false
  -- The server sends the resource that is asked for, as it holds it.
  pub sends :
      (w : k.World) (r : StarknetRpc)
      → (k.get_rpc name w).0 ≡ ok r
      → (restore_done k r ≡ holding.done w)
        × (r.meta.name ≡ name.name)
        × (r.meta.namespace ≡ name.namespace)
  -- Only a status that says that the restore is not done can make it so.
  pub keeps :
      (c : Call) (w : k.World)
      → sends_undone k c ≡ false
      → holding.done w ≡ true
      → holding.done (perform k c w) ≡ true
  -- The storage claim is not created twice, and it is there until a call deletes it.
  pub refuses :
      (r : StarknetRpc) (w : k.World)
      → r.meta.name ≡ name.name
      → r.meta.namespace ≡ name.namespace
      → holding.claimed w ≡ true
      → IsRefused (k.pvcs.create (get_wanted_pvc r) w).0
  pub stays :
      (c : Call) (w : k.World)
      → KeepsStorage c
      → holding.claimed w ≡ true
      → holding.claimed (perform k c w) ≡ true

-- The restore is done, and the claim is there.
abbrev pub IsKept : {k : Kube} → Holding k → k.World → Type 0
IsKept holding w = (holding.done w ≡ true) × (holding.claimed w ≡ true)

-- Others keep both.
abbrev pub Spares : {k : Kube} → Holding k → k.World → k.World → Type 0
Spares holding w w' = IsKept holding w → IsKept holding w'

pub restarts-sends_undone : (k : Kube) (c : Call) → restarts k c ≡ false → sends_undone k c ≡ false
restarts-sends_undone k c e = ground arith

module _ {k : Kube} (name : NamespacedName) (holding : Holding k)
    (server : IsHolding k name holding) where
  replay-done :
      (w : k.World) (l : List Entry)
      → holding.done w ≡ true
      → resets k l ≡ false
      → holding.done (replay k w l) ≡ true
  unfolding replay resets
  replay-done w [] done well = done
  replay-done w (e ∷ l) done well = ground (
    arith,
    replay-done w l done,
    restarts-sends_undone k e.call,
    server.keeps e.call (replay k w l),
  )

  replay-claimed :
      (w : k.World) (l : List Entry)
      → holding.claimed w ≡ true
      → All (λ (e : Entry). KeepsStorage e.call) l
      → holding.claimed (replay k w l) ≡ true
  unfolding replay
  replay-claimed w [] claimed well = claimed
  replay-claimed w (e ∷ l) claimed well =
      server.stays e.call (replay k w l) well.0 (replay-claimed w l claimed well.1)

  module _ (conditions : HasConditions k) (status : KeepsStatus k) where
    staged :
        (a : Answer k.Fault Pvc) (p : Pass k)
        → (k.pvcs.create (get_wanted_pvc p.rpc) p.world).0 ≡ a
        → IsRefused a
        → IsDone conditions status p
        → IsDone conditions status (pvc_stage {k = k} p).1
    staged (ok x) p same refused h = absurd refused
    staged (err f) p same refused h = pvc_stage-IsDone conditions status p f same h

    initialized :
        (cs : List Condition) (p : Pass k)
        → p.rpc.status.conditions ≡ cs
        → IsRefused (k.pvcs.create (get_wanted_pvc p.rpc) p.world).0
        → IsDone conditions status p
        → IsDone conditions status ((initialize_if {k = k} cs >>= after_initialize) p).1
    initialized [] p same refused h = ground (arith, server.empty "Restore")
    initialized (c ∷ cs) p same refused h =
        staged (k.pvcs.create (get_wanted_pvc p.rpc) p.world).0 p refl refused h

    fetched :
        (w : k.World) (a : Answer k.Fault StarknetRpc) (p : Pass k)
        → (k.get_rpc name w).0 ≡ a
        → holding.done w ≡ true
        → holding.claimed p.world ≡ true
        → resets k p.calls ≡ false
        → resets k (after_fetch {k = k} a p).1.calls ≡ false
    unfolding after_fetch
    fetched w (err f) p same done claimed well = ground arith
    fetched w (ok rpc) p same done claimed well =
        let (same_done, same_name, same_namespace) = server.sends w rpc same in
        (initialized rpc.status.conditions (record p { rpc = rpc }) refl
          (server.refuses rpc p.world same_name same_namespace claimed) (same_done ∙ done, well)).1

    run-resets :
        (w : k.World)
        → IsKept holding w
        → resets k (reconcile {k = k} name (begin w)).1.calls ≡ false
    unfolding reconcile get_rpc resets
    run-resets w kept =
        fetched w (k.get_rpc name w).0 (get_rpc {k = k} name (begin w)).1 refl kept.0
          (server.stays (get_call rpc_kind name) w tt kept.1) refl

    run-IsKept :
        (w : k.World) → IsKept holding w → IsKept holding (reconcile {k = k} name (begin w)).1.world
    run-IsKept w kept =
        let calls = (reconcile {k = k} name (begin w)).1.calls in
        let same = sym (reconcile-replays k w name) in
        (
          ap holding.done same ∙ replay-done w calls kept.0 (run-resets w kept),
          ap holding.claimed same ∙ replay-claimed w calls kept.1 (reconcile-KeepsStorage k name w),
        )

    Reach-IsKept :
        (u w : k.World) → Reach k name (Spares holding) u w → IsKept holding u → IsKept holding w
    Reach-IsKept u w (here _) kept = kept
    Reach-IsKept u w (later _ v _ before (run _)) kept = run-IsKept v (Reach-IsKept u v before kept)
    Reach-IsKept u w (later _ v _ before (other _ _ spares)) kept =
        spares (Reach-IsKept u v before kept)

    -- Take a server that sends a resource as it holds it, whose stored restore condition becomes
    -- false only by a status that says so, and which has a storage claim once and until a call
    -- deletes it, conditions and status that behave as documented, and any sequence of runs for
    -- the resource, with changes in between by others who keep its restore done and its claim
    -- there: if the restore is done and the storage claim is there in the first world, then so
    -- they are in the last one, and a run from the last one creates no job and sends no status
    -- that says that the restore is not done.
    pub Reach-resets :
        (u w : k.World)
        → Reach k name (Spares holding) u w
        → IsKept holding u
        → IsKept holding w × (resets k (reconcile {k = k} name (begin w)).1.calls ≡ false)
    Reach-resets u w history kept =
        let kept' = Reach-IsKept u w history kept in (kept', run-resets w kept')
