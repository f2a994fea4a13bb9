-- ===== src/Reconciler/Steady.antt =====
-- `create_or_reconcile` on an object that exists.
use starknet_operators.Prelude.{◌≡◌, refl, true, false, none, some, List, ◌∷◌, All}
use starknet_operators.Prog.{ret, panic}
use starknet_operators.Kubernetes.Meta.{object_key}
use starknet_operators.Kubernetes.Client.{Kube, Resource, ok, err}
use starknet_operators.Pass.{Pass, Stored, create_call, get_call}
use starknet_operators.Reconciler.Loop.{ObjectReconcilier, reconcile_all}
use starknet_operators.Reconciler.Coherence.{Accepts, reconcile_all-unchanged}
use starknet_operators.Reconciler.{create_or_reconcile}

module _ {k : Kube} {T : Type 0} ⦃s : Stored T⦄ (r : Resource k.World k.Fault T)
    (rs : List (ObjectReconcilier k.Fault T)) (p : Pass k) (x y : T) (f : k.Fault) where
  pub create_or_reconcile-panics :
      (r.create x p.world).0 ≡ err f
      → k.is_already_exists f ≡ true
      → (r.get (object_key (s.meta x)) (r.create x p.world).1).0 ≡ ok y
      → reconcile_all rs y ≡ panic
      → (create_or_reconcile {k = k} r x rs p).0 ≡ panic
  unfolding create_or_reconcile
  create_or_reconcile-panics exists known found broken = rw (exists, known, found, broken) refl

  -- If the creation is answered with "already exists" and the object that is then read is
  -- accepted by all reconcilers, create-or-reconcile makes these two calls and no others, returns
  -- the object that was read, as not created and without an error, and leaves the copy of the
  -- resource alone.
  pub create_or_reconcile-steady :
      (r.create x p.world).0 ≡ err f
      → k.is_already_exists f ≡ true
      → (r.get (object_key (s.meta x)) (r.create x p.world).1).0 ≡ ok y
      → All (Accepts y) rs
      → create_or_reconcile {k = k} r x rs p ≡ (
        ret (record { object = y; created = false; error = none }),
        record {
          world = (r.get (object_key (s.meta x)) (r.create x p.world).1).1;
          rpc = p.rpc;
          calls =
              record {
                call = get_call s.kind (object_key (s.meta x));
                rpc = p.rpc;
                sent = some (s.wrap y);
              }
              ∷ record { call = create_call (s.wrap x); rpc = p.rpc; sent = none }
              ∷ p.calls;
        },
      )
  unfolding create_or_reconcile
  create_or_reconcile-steady exists known found accepted =
      rw (exists, known, found, reconcile_all-unchanged rs y accepted) refl

-- A check that panics ends the loop.
module _ {F T : Type 0} where
  pub reconcile_all-panics :
      (r : ObjectReconcilier F T) (rs : List (ObjectReconcilier F T)) (x : T)
      → r.is_up_to_date x ≡ panic
      → reconcile_all (r ∷ rs) x ≡ panic
  unfolding reconcile_all
  reconcile_all-panics r rs x stale = rw stale refl
