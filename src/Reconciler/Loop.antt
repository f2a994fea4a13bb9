-- ===== src/Reconciler/Loop.antt =====
-- The loop of `CreateOrReconcile` over the reconcilers of an object.
use starknet_operators.Prelude.{String, Bool, true, false, Option, none, some, List, [], ◌∷◌}
use starknet_operators.Prog.{Outcome, ret, panic}
use starknet_operators.Pass.{Error}

-- `update` gives the changed object and its error.
pub record ObjectReconcilier (F T : Type 0) : Type 0 where
  pub name : String
  pub is_up_to_date : T → Outcome Bool
  pub update : T → Outcome (T × Option (Error F))

-- How the loop ends: with an error, with no change, or with a changed object.
pub data Reconciled (F T : Type 0) : Type 0 where
  refused : T → Error F → Reconciled F T
  unchanged changed : T → Reconciled F T

module _ {F T : Type 0} where
  -- The object so far, and `updated`.
  abbrev pub reached : Bool → T → Reconciled F T
  reached true x = Reconciled.changed x
  reached false x = Reconciled.unchanged x

  unfoldable pub reconcile_from : List (ObjectReconcilier F T) → Bool → T → Outcome (Reconciled F T)
  reconcile_from [] updated x = ret (reached updated x)
  reconcile_from (r ∷ rs) updated x = elim (r.is_up_to_date x) [
    | panic ↦ panic
    | ret true ↦ reconcile_from rs updated x
    | ret false ↦ elim (r.update x) [
      | panic ↦ panic
      | ret (x', none) ↦ reconcile_from rs true x'
      | ret (x', some e) ↦ ret (Reconciled.refused x' e)
    ]
  ]

  unfoldable pub reconcile_all : List (ObjectReconcilier F T) → T → Outcome (Reconciled F T)
  unfolding reconcile_from
  reconcile_all rs = reconcile_from rs false
