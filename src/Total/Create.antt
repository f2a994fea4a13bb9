-- ===== src/Total/Create.antt =====
-- When `create_or_reconcile` returns, for any kind of object.
use starknet_operators.Prelude.{Option, none, some, List, Bool-cases, inl, inr}
use starknet_operators.Prog.{Returns, continue-Holds}
use starknet_operators.Kubernetes.Meta.{object_key}
use starknet_operators.Kubernetes.Client.{Kube, Resource, Answer, ok, err}
use starknet_operators.Pass.{Pass, Error, next_loop, Stored, create, get}
use starknet_operators.Reconciler.Loop.{ObjectReconcilier, Reconciled, reconcile_all}
use starknet_operators.Reconciler.{
  Created, persist, after_update, after_get, after_create, create_or_reconcile,
}
use starknet_operators.Total.{OkIs, Sends}

module _ {F T : Type 0} (G : T → Type 0) where
  -- The loop ended without an error, and its object is good.
  abbrev pub IsFine : Reconciled F T → Type 0
  IsFine (Reconciled.refused x e) = ⊥
  IsFine (Reconciled.unchanged x) = G x
  IsFine (Reconciled.changed x) = G x

  abbrev Usable : T → Option (Error F) → Type 0
  Usable x none = G x
  Usable x (some next_loop) = ⊥
  Usable x (some _) = Unit

  -- The object is good, or there is an error, which is not `ErrNextLoop`.
  abbrev pub IsUsable : Created F T → Type 0
  IsUsable c = Usable c.object c.error

  after_update-IsUsable : (x : T) (a : Answer F T) → OkIs G a → IsUsable (after_update x a)
  after_update-IsUsable x (ok x') g = g
  after_update-IsUsable x (err f) g = tt

module _ {k : Kube} {T : Type 0} (G : T → Type 0) ⦃s : Stored T⦄ (r : Resource k.World k.Fault T)
    (sends : Sends G r) (rs : List (ObjectReconcilier k.Fault T))
    (loop : (x : T) → G x → Returns (IsFine G) (reconcile_all rs x)) where
  persist-Returns :
      (o : Reconciled k.Fault T) (p : Pass k)
      → IsFine G o
      → Returns (IsUsable G) (persist {k = k} r o p).0
  unfolding persist
  persist-Returns (Reconciled.refused x e) p g = absurd g
  persist-Returns (Reconciled.unchanged x) p g = g
  persist-Returns (Reconciled.changed x) p g =
      after_update-IsUsable G x (r.update x p.world).0 (sends.update x p.world)

  after_get-Returns :
      (p : Pass k) (x : T) (a : Answer k.Fault T)
      → OkIs G a
      → Returns (IsUsable G) (after_get {k = k} r rs x a p).0
  unfolding after_get
  after_get-Returns p x (err f) g = tt
  after_get-Returns p x (ok y) g =
      continue-Holds ⊥ (IsFine G) (IsUsable G) (persist {k = k} r) (reconcile_all rs y) p (loop y g)
        persist-Returns

  after_create-Returns :
      (p : Pass k) (x : T) (a : Answer k.Fault T)
      → OkIs G a
      → Returns (IsUsable G) (after_create {k = k} r rs x a p).0
  unfolding after_create get
  after_create-Returns p x (ok y) g = g
  after_create-Returns p x (err f) g = elim (Bool-cases (k.is_already_exists f)) [
    | inl e ↦
        let key = object_key (s.meta x) in
        rw e (
          after_get-Returns (get {k = k} r key p).1 x (r.get key p.world).0 (sends.get key p.world))
    | inr e ↦ rw e tt
  ]

  -- For every kind of object: if the server sends good objects, and from a good object the loop
  -- over the reconcilers returns a good object without an error, then create-or-reconcile
  -- returns, with a good object or with an error that is not `ErrNextLoop`.
  pub create_or_reconcile-Returns :
      (p : Pass k) (x : T) → Returns (IsUsable G) (create_or_reconcile {k = k} r x rs p).0
  unfolding create_or_reconcile create
  create_or_reconcile-Returns p x =
      after_create-Returns (create {k = k} r x p).1 x (r.create x p.world).0
        (sends.create x p.world)
