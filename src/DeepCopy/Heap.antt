-- ===== src/DeepCopy/Heap.antt =====
-- Go's memory: cells at addresses, and code that reads them and makes new ones. Cells are never given
-- back: what nothing points to is left to the garbage collector.
use starknet_operators.Prelude.{
  arith, ◌≡◌, ◌≢◌, refl, ap, ◌∙◌, ℕ, zero, suc, ◌≤◌, ◌<◌, some, List, [], ◌∷◌, ◌++◌, length,
  get_elem?, set,
}
use starknet_operators.Prog.{ret, Prog, pure}

module _ {C : Type 0} where
  -- A new cell; its address is returned.
  unfoldable pub alloc : C → Prog (List C) ℕ
  alloc c h = (ret (length h), h ++ c ∷ [])

  length-append_one : (h : List C) (c : C) → length (h ++ c ∷ []) ≡ suc (length h)
  length-append_one [] c = refl
  length-append_one (d ∷ h) c = ap suc (length-append_one h c)

  get_elem?-append_old :
      (h : List C) (c : C) (a : ℕ) → a < length h → get_elem? (h ++ c ∷ []) a ≡ get_elem? h a
  get_elem?-append_old [] c a below = absurd (omega arith)
  get_elem?-append_old (d ∷ h) c zero below = refl
  get_elem?-append_old (d ∷ h) c (suc a) below = get_elem?-append_old h c a (omega arith)

  get_elem?-append_new : (h : List C) (c : C) → get_elem? (h ++ c ∷ []) (length h) ≡ some c
  get_elem?-append_new [] c = refl
  get_elem?-append_new (d ∷ h) c = get_elem?-append_new h c

  pub length-set : (h : List C) (a : ℕ) (c : C) → length (set h a c) ≡ length h
  length-set [] a c = refl
  length-set (d ∷ h) zero c = refl
  length-set (d ∷ h) (suc a) c = ap suc (length-set h a c)

  pub get_elem?-set_ne :
      (h : List C) (a b : ℕ) (c : C) → b ≢ a → get_elem? (set h a c) b ≡ get_elem? h b
  get_elem?-set_ne [] a b c apart = refl
  get_elem?-set_ne (d ∷ h) zero zero c apart = absurd (apart refl)
  get_elem?-set_ne (d ∷ h) zero (suc b) c apart = refl
  get_elem?-set_ne (d ∷ h) (suc a) zero c apart = refl
  get_elem?-set_ne (d ∷ h) (suc a) (suc b) c apart =
      get_elem?-set_ne h a b c (λ e. apart (ap suc e))

  -- The cells from one address on and below another are the same.
  abbrev pub AgreeOn : ℕ → ℕ → List C → List C → Type 0
  AgreeOn lo hi h h' = (a : ℕ) → lo ≤ a → a < hi → get_elem? h' a ≡ get_elem? h a

  -- Cells were added, and those that were there are as before.
  pub record Extends (h h' : List C) : Type 0 where
    pub grows : length h ≤ length h'
    pub agree : AgreeOn 0 (length h) h h'

  pub Extends-refl : (h : List C) → Extends h h
  Extends-refl h = record { grows = omega arith; agree = λ a _ _. refl }

  infixr 30 ◌then◌
  pub ◌then◌ : {h h' h'' : List C} → Extends h h' → Extends h' h'' → Extends h h''
  p then q = record {
    grows = omega (arith, p.grows, q.grows);
    agree = λ a low below. q.agree a (omega arith) (omega (arith, p.grows)) ∙ p.agree a low below;
  }

  pub alloc-Extends : (h : List C) (c : C) → Extends h (alloc c h).1
  unfolding alloc
  alloc-Extends h c = record {
    grows = omega (arith, length-append_one h c);
    agree = λ a low below. get_elem?-append_old h c a below;
  }

  -- The code returns, with cells added and none changed, and its result has the property.
  pub record Goes {A : Type 0} (h : List C) (m : Prog (List C) A) (Q : List C → A → Type 0)
      : Type 0 where
    pub result : A
    pub final : List C
    pub runs : m h ≡ (ret result, final)
    pub extends : Extends h final
    pub holds : Q final result

  pub pure-Goes :
      {A : Type 0} {Q : List C → A → Type 0} (h : List C) (a : A) → Q h a → Goes h (pure a) Q
  pure-Goes h a q = record {
    result = a;
    final = h;
    runs = refl;
    extends = Extends-refl h;
    holds = q;
  }

  pub alloc-Goes :
      (h : List C) (c : C) {Q : List C → ℕ → Type 0}
      → ((h' : List C)
          → Extends h h'
          → length h < length h'
          → get_elem? h' (length h) ≡ some c
          → Q h' (length h))
      → Goes h (alloc c) Q
  unfolding alloc
  alloc-Goes h c next = record {
    result = length h;
    final = h ++ c ∷ [];
    runs = refl;
    extends = alloc-Extends h c;
    holds =
        next (h ++ c ∷ []) (alloc-Extends h c) (omega (arith, length-append_one h c))
          (get_elem?-append_new h c);
  }

  pub mono-Goes :
      {A : Type 0} {m : Prog (List C) A} {h : List C} {R Q : List C → A → Type 0}
      → Goes h m R
      → ((a : A) (h' : List C) → Extends h h' → R h' a → Q h' a)
      → Goes h m Q
  mono-Goes r weaken = record {
    result = r.result;
    final = r.final;
    runs = r.runs;
    extends = r.extends;
    holds = weaken r.result r.final r.extends r.holds;
  }
