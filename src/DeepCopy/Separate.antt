-- ===== src/DeepCopy/Separate.antt =====
-- A resource and its deep copy are separate: neither sees what is done to the other.
use starknet_operators.Prelude.{
  arith, ◌≡◌, refl, sym, ap, ◌∙◌, ℕ, ◌≤◌, ◌<◌, ◌⊎◌, inl, inr, Option, some, List, length, set,
}
use starknet_operators.Prog.{Outcome, ret}
use starknet_operators.V1alpha1.{StarknetRpc}
use starknet_operators.DeepCopy.Heap.{
  alloc, alloc-Extends, AgreeOn, Extends, length-set, get_elem?-set_ne,
}
use starknet_operators.DeepCopy.Layout.{IsDeep, pointer, Layout}
use starknet_operators.DeepCopy.Pointers.{pointer-IsDeep}
use starknet_operators.DeepCopy.Memory.{
  Types, Cell, rpc_slot, Library, IsDeepLibrary, RuntimeObject, starknet_rpc,
}
use starknet_operators.DeepCopy.StarknetRpc.{rpc, deep_copy_object}
use starknet_operators.DeepCopy.Deep.StarknetRpc.{rpc-IsDeep, deep_copy_object-copies}

outside : (a b lo hi : ℕ) → (a < lo) ⊎ (hi ≤ a) → b ≡ a → lo ≤ b → b < hi → ⊥
outside a b lo hi (inl under) e low below = omega arith
outside a b lo hi (inr over) e low below = omega arith

address_eq :
    {a b : ℕ}
    → ◌≡◌ {A = Outcome (Option RuntimeObject)}
        (ret (some (starknet_rpc a)))
        (ret (some (starknet_rpc b)))
    → a ≡ b
address_eq e = cc

module _ {C : Type 0} where
  -- Any writes at the addresses of a kind, and any new cells, in any order.
  pub data Changes (May : ℕ → Type 0) (h : List C) : List C → Type 0 where
    nothing : Changes May h h
    write : (h' : List C) (a : ℕ) (c : C) → Changes May h h' → May a → Changes May h (set h' a c)
    create : (h' : List C) (c : C) → Changes May h h' → Changes May h (alloc c h').1

  module _ {May : ℕ → Type 0} (h : List C) where
    Changes-grow : {h' : List C} → Changes May h h' → length h ≤ length h'
    Changes-grow nothing = omega arith
    Changes-grow (write h' a c before may) = omega (arith, Changes-grow before, length-set h' a c)
    Changes-grow (create h' c before) =
        omega (arith, Changes-grow before, (alloc-Extends h' c).grows)

    -- What may not be written is left as it is.
    Changes-agree :
        (lo hi : ℕ) {h' : List C}
        → Changes May h h'
        → hi ≤ length h
        → ((a : ℕ) → May a → (a < lo) ⊎ (hi ≤ a))
        → AgreeOn lo hi h h'
    Changes-agree lo hi nothing fits apart b low below = refl
    Changes-agree lo hi (write h' a c before may) fits apart b low below =
        get_elem?-set_ne h' a b c (λ e. outside a b lo hi (apart a may) e low below)
        ∙ Changes-agree lo hi before fits apart b low below
    Changes-agree lo hi (create h' c before) fits apart b low below =
        (alloc-Extends h' c).agree b (omega arith) (omega (arith, Changes-grow before))
        ∙ Changes-agree lo hi before fits apart b low below

  module _ {M V : Type 0} (l : Layout C M V) (deep : IsDeep l) where
    -- A value is still shown after changes outside of its cells.
    pub Changes-keep :
        {May : ℕ → Type 0} (h h' : List C) (lo hi : ℕ) (m : M) (v : V)
        → Changes May h h'
        → hi ≤ length h
        → ((a : ℕ) → May a → (a < lo) ⊎ (hi ≤ a))
        → l.Shows h lo hi m v
        → l.Shows h' lo hi m v
    Changes-keep h h' lo hi m v changes fits apart =
        deep.moves h h' lo lo hi hi m v (omega arith) (omega arith)
          (Changes-agree h lo hi changes fits apart)

module _ {t : Types} (lib : Library t) (deep : IsDeepLibrary lib) where
  abbrev resource : Layout (Cell t) (Option ℕ) (Option StarknetRpc)
  resource = pointer rpc_slot (rpc lib)

  resource-IsDeep : IsDeep resource
  resource-IsDeep = pointer-IsDeep rpc_slot (rpc lib) (rpc-IsDeep lib deep)

  -- If the copies that the libraries make are deep, a pointer stands for a resource in a memory,
  -- and its DeepCopyObject has returned a pointer, then the first pointer still stands for the
  -- resource after any writes to cells that were not there before the copy, and the second one
  -- still stands for it after any writes to cells that were there before the copy or were made
  -- after it, with any new cells in between in both cases.
  pub deep_copy_object-separate :
      (h h' w w' : List (Cell t)) (p q : ℕ) (v : StarknetRpc)
      → resource.Shows h 0 (length h) (some p) (some v)
      → deep_copy_object lib (some p) h ≡ (ret (some (starknet_rpc q)), h')
      → Changes (λ a. length h ≤ a) h' w
      → Changes (λ a. (a < length h) ⊎ (length h' ≤ a)) h' w'
      → resource.Shows w 0 (length h) (some p) (some v)
        × resource.Shows w' (length h) (length h') (some q) (some v)
  deep_copy_object-separate h h' w w' p q v shown run by_copy by_original =
      let (q0, h0, e, g, new) = deep_copy_object-copies lib deep h p v shown in
      let same : h0 ≡ h' = ap (λ r. r.1) (sym e ∙ run) in
      let same_address : q0 ≡ q = address_eq (ap (λ r. r.0) (sym e ∙ run)) in
      let grown : Extends h h' = rw same at g in
      let copied : resource.Shows h' (length h) (length h') (some q) (some v) =
        rw same at (rw same_address at new) in
      let kept =
        resource-IsDeep.moves h h' 0 0 (length h) (length h) (some p) (some v) (omega arith)
          (omega arith) grown.agree shown in
      (
        Changes-keep resource resource-IsDeep h' w 0 (length h) (some p) (some v) by_copy
            grown.grows (λ a may. inr may) kept,
        Changes-keep resource resource-IsDeep h' w' (length h) (length h') (some q) (some v)
            by_original (omega arith) (λ a may. may) copied,
      )
