-- ===== src/Reconciler.antt =====
-- internal/utils/reconciler: an object is created, or the one that exists is brought up to date.
-- `ErrNextLoop` and `ErrTerminateLoop` are `next_loop` and `terminate_loop` of `Pass`.
pub mod Loop
pub mod Coherence
pub mod Steady
use starknet_operators.Prelude.{Bool, true, false, Option, none, some, List, if◌then◌else◌}
use starknet_operators.Prog.{pure, lift, ◌>>=◌}
use starknet_operators.Kubernetes.Meta.{object_key}
use starknet_operators.Kubernetes.Client.{Kube, Resource, Answer, ok, err}
use starknet_operators.Pass.{M, Error, api, Stored, create, get, update}
use starknet_operators.Reconciler.Loop.{ObjectReconcilier, Reconciled, reconcile_all}

-- The object as the call left it, whether it was created, and the error.
pub record Created (F T : Type 0) : Type 0 where
  pub object : T
  pub created : Bool
  pub error : Option (Error F)

abbrev pub after_update : {F T : Type 0} → T → Answer F T → Created F T
after_update x (ok x') = record { object = x'; created = false; error = none }
after_update x (err f) = record { object = x; created = false; error = some (api f) }

module _ {k : Kube} {T : Type 0} ⦃s : Stored T⦄ (r : Resource k.World k.Fault T) where
  unfoldable pub persist : Reconciled k.Fault T → M k (Created k.Fault T)
  unfolding update
  persist (Reconciled.refused x e) = pure (record { object = x; created = false; error = some e })
  persist (Reconciled.unchanged x) = pure (record { object = x; created = false; error = none })
  persist (Reconciled.changed x) = do answer ← update r x; pure (after_update x answer)

  unfoldable pub after_get :
      List (ObjectReconcilier k.Fault T) → T → Answer k.Fault T → M k (Created k.Fault T)
  unfolding persist
  after_get rs x (err f) = pure (record { object = x; created = false; error = some (api f) })
  after_get rs x (ok x') = do reconciled ← lift (reconcile_all rs x'); persist reconciled

  unfoldable pub after_create :
      List (ObjectReconcilier k.Fault T) → T → Answer k.Fault T → M k (Created k.Fault T)
  unfolding after_get get
  after_create rs x (ok x') = pure (record { object = x'; created = true; error = none })
  after_create rs x (err f) =
      if k.is_already_exists f
      then (do answer ← get r (object_key (s.meta x)); after_get rs x answer)
      else pure (record { object = x; created = true; error = some (api f) })

  unfoldable pub create_or_reconcile :
      T → List (ObjectReconcilier k.Fault T) → M k (Created k.Fault T)
  unfolding after_create create
  create_or_reconcile x rs = do answer ← create r x; after_create rs x answer
