-- ===== src/Reconciler/Coherence.antt =====
-- What the reconcilers of one object owe to each other, and what the loop over them then does.
use starknet_operators.Prelude.{
  arith, ◌≡◌, refl, Bool, true, false, Option, none, some, List, [], ◌∷◌, All, ◌⊎◌, inl, inr, sym,
  ◌∙◌,
}
use starknet_operators.Pass.{Error}
use starknet_operators.Prog.{Outcome, ret, panic}
use starknet_operators.Reconciler.Loop.{
  ObjectReconcilier, changed, unchanged, reached, reconcile_from, reconcile_all,
}

module _ {F T : Type 0} where
  abbrev pub Accepts : T → ObjectReconcilier F T → Type 0
  Accepts x r = r.is_up_to_date x ≡ ret true

  -- After its update, a reconciler accepts the object.
  abbrev pub Establishes : ObjectReconcilier F T → Type 0
  Establishes r = (x x' : T) → r.update x ≡ ret (x', none) → Accepts x' r

  -- The update of the first keeps what the second accepts.
  abbrev pub Respects : ObjectReconcilier F T → ObjectReconcilier F T → Type 0
  Respects r q = (x x' : T) → r.update x ≡ ret (x', none) → Accepts x q → Accepts x' q

  -- Each reconciler establishes its own test and respects those before it.
  abbrev pub AreCoherent : List (ObjectReconcilier F T) → List (ObjectReconcilier F T) → Type 0
  AreCoherent seen [] = Unit
  AreCoherent seen (r ∷ rs) = Establishes r × All (Respects r) seen × AreCoherent (r ∷ seen) rs

  All-Respects :
      (r : ObjectReconcilier F T) (x x' : T) (seen : List (ObjectReconcilier F T))
      → r.update x ≡ ret (x', none)
      → All (Respects r) seen
      → All (Accepts x) seen
      → All (Accepts x') seen
  All-Respects r x x' [] e h a = tt
  All-Respects r x x' (q ∷ seen) e h a = (h.0 x x' e a.0, All-Respects r x x' seen e h.1 a.1)

  reached_inj : (b c : Bool) (x y : T) → reached {F = F} b x ≡ reached c y → x ≡ y
  reached_inj true true x y e = cc
  reached_inj true false x y e = cc
  reached_inj false true x y e = cc
  reached_inj false false x y e = cc

  module _ (r : ObjectReconcilier F T) (rs : List (ObjectReconcilier F T)) (u : Bool) (x : T) where
    step_accepted :
        r.is_up_to_date x ≡ ret true → reconcile_from (r ∷ rs) u x ≡ reconcile_from rs u x
    unfolding reconcile_from
    step_accepted h = ground arith

    step_updated :
        (x' : T)
        → r.is_up_to_date x ≡ ret false
        → r.update x ≡ ret (x', none)
        → reconcile_from (r ∷ rs) u x ≡ reconcile_from rs true x'
    unfolding reconcile_from
    step_updated x' h e = ground arith

    abbrev Ends : Type 0
    Ends = (b : Bool) × (y : T) × (reconcile_from (r ∷ rs) u x ≡ ret (reached b y))

    update_cases :
        (o : Outcome (T × Option (Error F)))
        → r.update x ≡ o
        → r.is_up_to_date x ≡ ret false
        → Ends
        → (x' : T) × (r.update x ≡ ret (x', none))
    unfolding reconcile_from
    update_cases panic q h e = ground arith
    update_cases (ret (x', none)) q h e = (x', q)
    update_cases (ret (x', some err)) q h e = ground arith

    test_cases :
        (o : Outcome Bool)
        → r.is_up_to_date x ≡ o
        → Ends
        → (r.is_up_to_date x ≡ ret true)
          ⊎ ((x' : T) × (r.is_up_to_date x ≡ ret false) × (r.update x ≡ ret (x', none)))
    unfolding reconcile_from
    test_cases panic q e = ground arith
    test_cases (ret true) q e = inl q
    test_cases (ret false) q e = let (x', t) = update_cases (r.update x) refl q e in inr (x', q, t)

    -- A loop that ends well accepted the object or updated it.
    step_cases :
        Ends
        → (r.is_up_to_date x ≡ ret true)
          ⊎ ((x' : T) × (r.is_up_to_date x ≡ ret false) × (r.update x ≡ ret (x', none)))
    step_cases = test_cases (r.is_up_to_date x) refl

  reconcile_from-Accepts :
      (rs seen : List (ObjectReconcilier F T)) (updated b : Bool) (x y : T)
      → AreCoherent seen rs
      → All (Accepts x) seen
      → reconcile_from rs updated x ≡ ret (reached b y)
      → All (Accepts y) seen × All (Accepts y) rs
  unfolding reconcile_from
  reconcile_from-Accepts [] seen updated b x y c a e =
      (rw (← reached_inj updated b x y (cc e)) a, tt)
  reconcile_from-Accepts (r ∷ rs) seen updated b x y c a e =
      elim (step_cases r rs updated x (b, y, e)) [
        | inl h ↦
            let ih =
              reconcile_from-Accepts rs (r ∷ seen) updated b x y c.2 (h, a)
                (sym (step_accepted r rs updated x h) ∙ e) in
            (ih.0.1, (ih.0.0, ih.1))
        | inr (x', h, u) ↦
            let ih =
              reconcile_from-Accepts rs (r ∷ seen) true b x' y c.2
                (c.0 x x' u, All-Respects r x x' seen u c.1 a)
                (sym (step_updated r rs updated x x' h u) ∙ e) in
            (ih.0.1, (ih.0.0, ih.1))
      ]

  -- If each reconciler accepts an object after its own update, and its update keeps what the
  -- reconcilers before it accept, then the object with which the loop ends without an error is
  -- accepted by all of them.
  pub reconcile_all-Accepts :
      (rs : List (ObjectReconcilier F T)) (b : Bool) (x y : T)
      → AreCoherent [] rs
      → reconcile_all rs x ≡ ret (reached b y)
      → All (Accepts y) rs
  unfolding reconcile_all
  reconcile_all-Accepts rs b x y c e = (reconcile_from-Accepts rs [] false b x y c tt e).1

  -- If all reconcilers accept an object, the loop over them returns it as it is, with nothing to
  -- persist.
  pub reconcile_all-unchanged :
      (rs : List (ObjectReconcilier F T)) (x : T)
      → All (Accepts x) rs
      → reconcile_all rs x ≡ ret (unchanged x)
  unfolding reconcile_all reconcile_from
  reconcile_all-unchanged [] x a = refl
  reconcile_all-unchanged (r ∷ rs) x a =
      step_accepted r rs false x a.0 ∙ reconcile_all-unchanged rs x a.1

  -- If one reconciler changed the object, it did not accept it before.
  pub changed-stale :
      (r : ObjectReconcilier F T) (x y : T)
      → reconcile_all (r ∷ []) x ≡ ret (changed y)
      → r.is_up_to_date x ≡ ret false
  unfolding reconcile_all
  changed-stale r x y e = ground arith
