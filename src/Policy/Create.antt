-- ===== src/Policy/Create.antt =====
-- The calls of `create_or_reconcile`, for any kind of object.
use starknet_operators.Prelude.{◌≡◌, refl, some, true, List, [], All, Bool-cases, inl, inr}
use starknet_operators.Kubernetes.Client.{Kube, Resource, Answer, ok, err}
use starknet_operators.Prog.{Outcome, ret, panic}
use starknet_operators.Pass.{Pass, Stored, object_of, create, get}
use starknet_operators.Kubernetes.Meta.{object_key}
use starknet_operators.Reconciler.Loop.{ObjectReconcilier, Reconciled, reconcile_all}
use starknet_operators.Reconciler.Coherence.{AreCoherent, Accepts, reconcile_all-Accepts}
use starknet_operators.Reconciler.{after_get, after_create, create_or_reconcile}
use starknet_operators.Policy.{Obeys, MayCreate, MayUpdate, last_sent}

module _ {k : Kube} {T : Type 0} ⦃s : Stored T⦄ (r : Resource k.World k.Fault T)
    (rs : List (ObjectReconcilier k.Fault T)) (coherent : AreCoherent [] rs) where
  module _ (p : Pass k)
      (may : (y z : T)
        → reconcile_all rs y ≡ ret (Reconciled.changed z)
        → All (Accepts z) rs
        → MayUpdate (s.wrap z) p.rpc (some (s.wrap y))) where
    after_get-Obeys :
        (q : Pass k) (x y : T) (o : Outcome (Reconciled k.Fault T))
        → reconcile_all rs y ≡ o
        → q.rpc ≡ p.rpc
        → last_sent q.calls ≡ some (s.wrap y)
        → Obeys q
        → Obeys (after_get {k = k} r rs x (ok y) q).1
    unfolding after_get
    after_get-Obeys q x y panic e same sent h = rw e h
    after_get-Obeys q x y (ret (Reconciled.refused z f)) e same sent h = rw e h
    after_get-Obeys q x y (ret (Reconciled.unchanged z)) e same sent h = rw e h
    after_get-Obeys q x y (ret (Reconciled.changed z)) e same sent h =
        rw (e, same, sent) (may y z e (reconcile_all-Accepts rs true y z coherent e), h)

    answer-Obeys :
        (q : Pass k) (x : T) (a : Answer k.Fault T)
        → q.rpc ≡ p.rpc
        → last_sent q.calls ≡ object_of s.wrap a
        → Obeys q
        → Obeys (after_get {k = k} r rs x a q).1
    unfolding after_get
    answer-Obeys q x (err f) same sent h = h
    answer-Obeys q x (ok y) same sent h =
        after_get-Obeys q x y (reconcile_all rs y) refl same sent h

    after_create-Obeys :
        (q : Pass k) (x : T) (a : Answer k.Fault T)
        → q.rpc ≡ p.rpc
        → Obeys q
        → Obeys (after_create {k = k} r rs x a q).1
    unfolding after_create get
    after_create-Obeys q x (ok y) same h = h
    after_create-Obeys q x (err f) same h = elim (Bool-cases (k.is_already_exists f)) [
      | inl e ↦
          let key = object_key (s.meta x) in
          rw e (answer-Obeys (get {k = k} r key q).1 x (r.get key q.world).0 same refl (tt, h))
      | inr e ↦ rw e h
    ]

    -- For every kind of object and every server: if the reconcilers are coherent, the object may
    -- be created, and whatever the loop changes into an object that all of them accept may be
    -- sent as an update of the one it changed, then create-or-reconcile keeps to the permitted
    -- calls.
    pub create_or_reconcile-Obeys :
        (x : T)
        → MayCreate k (s.wrap x) p.rpc p.calls
        → Obeys p
        → Obeys (create_or_reconcile {k = k} r x rs p).1
    unfolding create_or_reconcile create
    create_or_reconcile-Obeys x c h =
        after_create-Obeys (create {k = k} r x p).1 x (r.create x p.world).0 refl (c, h)
