-- ===== src/Prog.antt =====
-- Go code that changes a state and may panic. What was changed before a panic stays changed, so
-- the state comes back beside the panic too. An `error` that Go code returns is an ordinary value.
use starknet_operators.Prelude.{◌≡◌, ap}

pub data Outcome {ℓ} (A : Type ℓ) : Type ℓ where
  ret : A → Outcome A
  panic : Outcome A

abbrev pub Prog {ℓ} : Type ℓ → Type ℓ → Type ℓ
Prog S A = S → Outcome A × S

module _ {ℓ} {S A : Type ℓ} where
  abbrev pub pure : A → Prog S A
  pure a s = (ret a, s)

  -- Pure code that may panic.
  abbrev pub lift : Outcome A → Prog S A
  lift o s = (o, s)

module _ {ℓ} {S A B : Type ℓ} where
  abbrev pub continue : Outcome A → (A → Prog S B) → S → Outcome B × S
  continue (ret a) f s = f a s
  continue panic f s = (panic, s)

  infixl 10 ◌>>=◌ ◌>>◌
  abbrev pub ◌>>=◌ : Prog S A → (A → Prog S B) → Prog S B
  ◌>>=◌ m f s = continue (m s).0 f (m s).1

  abbrev pub ◌>>◌ : Prog S A → Prog S B → Prog S B
  m >> n = m >>= λ _. n

module _ {ℓ κ} {S A B : Type ℓ} {P : S → Type κ} where
  -- What holds after the first part and is kept by the rest holds at the end, panics included.
  continue-keeps :
      (f : A → Prog S B) (o : Outcome A) (s : S)
      → P s
      → ((a : A) (t : S) → P t → P (f a t).1)
      → P (continue o f s).1
  continue-keeps f (ret a) s h keep = keep a s h
  continue-keeps f panic s h keep = h

  pub >>=-keeps :
      (m : Prog S A) (f : A → Prog S B) (s : S)
      → P (m s).1
      → ((a : A) (t : S) → P t → P (f a t).1)
      → P ((m >>= f) s).1
  >>=-keeps m f s = continue-keeps f (m s).0 (m s).1

-- The result satisfies the predicate; after a panic the other condition holds.
abbrev pub Holds {ℓ} : {A : Type ℓ} → Type 0 → (A → Type 0) → Outcome A → Type 0
Holds C Q (ret a) = Q a
Holds C Q panic = C

-- The code returns, and its result satisfies the predicate.
abbrev pub Returns {ℓ} : {A : Type ℓ} → (A → Type 0) → Outcome A → Type 0
Returns = Holds ⊥

-- If the code returns, its result satisfies the predicate.
abbrev pub Ends {ℓ} : {A : Type ℓ} → (A → Type 0) → Outcome A → Type 0
Ends = Holds Unit

pub Ends-trivial {ℓ} : {A : Type ℓ} (o : Outcome A) → Ends (λ a. Unit) o
Ends-trivial (ret a) = tt
Ends-trivial panic = tt

module _ {ℓ} {S A B : Type ℓ} (C : Type 0) (R : A → Type 0) (Q : B → Type 0) where
  pub continue-Holds :
      (f : A → Prog S B) (o : Outcome A) (t : S)
      → Holds C R o
      → ((a : A) (t : S) → R a → Holds C Q (f a t).0)
      → Holds C Q (continue o f t).0
  continue-Holds f (ret a) t h keep = keep a t h
  continue-Holds f panic t h keep = h

  -- What holds of the first part, and of the rest after its result, holds of the whole.
  pub >>=-Holds :
      (m : Prog S A) (f : A → Prog S B) (s : S)
      → Holds C R (m s).0
      → ((a : A) (t : S) → R a → Holds C Q (f a t).0)
      → Holds C Q ((m >>= f) s).0
  >>=-Holds m f s = continue-Holds f (m s).0 (m s).1

module _ {ℓ} {S A B : Type ℓ} where
  -- A panic ends the whole.
  pub >>=-panics :
      (m : Prog S A) (f : A → Prog S B) (s : S) → (m s).0 ≡ panic → ((m >>= f) s).0 ≡ panic
  >>=-panics m f s e = ap (λ o. (continue o f (m s).1).0) e
