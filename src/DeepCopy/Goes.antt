-- ===== src/DeepCopy/Goes.antt =====
-- What follows a code that goes on: proofs in the order of the code.
use starknet_operators.Prelude.{ap, ◌∙◌, List}
use starknet_operators.Prog.{Prog, continue}
use starknet_operators.Prog
use starknet_operators.DeepCopy.Heap.{Extends, ◌then◌, Goes}

module _ {C : Type 0} where
  infixl 10 ◌>>=◌
  pub ◌>>=◌ :
      {A B : Type 0} {m : Prog (List C) A} {f : A → Prog (List C) B} {h : List C}
      {R : List C → A → Type 0} {Q : List C → B → Type 0}
      → Goes h m R
      → ((a : A) (h' : List C) → Extends h h' → R h' a → Goes h' (f a) Q)
      → Goes h (Prog.◌>>=◌ m f) Q
  ◌>>=◌ {f} r next =
      let rest = next r.result r.final r.extends r.holds in
      record {
        result = rest.result;
        final = rest.final;
        runs = ap (λ p. continue p.0 f p.1) r.runs ∙ rest.runs;
        extends = r.extends then rest.extends;
        holds = rest.holds;
      }
