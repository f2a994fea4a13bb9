-- ===== src/DeepCopy/Layout.antt =====
-- How values lie in memory, and how they are copied.
use starknet_operators.Prelude.{
  ◌≡◌, ℕ, ◌≤◌, ◌<◌, Option, none, some, List, [], ◌∷◌, length, get_elem?, take, drop,
}
use starknet_operators.Prelude.StringMap.{StringMap, HasKeysOnce, AreSame, copy}
use starknet_operators.Prog.{Outcome, ret, panic, Prog, pure, ◌>>=◌}
use starknet_operators.DeepCopy.Heap.{alloc, AgreeOn, Goes}

-- One kind of cell, among all kinds.
pub record Slot (C A : Type 0) : Type 0 where
  pub pack : A → C
  pub unpack : C → Option A
  pub unpack-pack : (a : A) → unpack (pack a) ≡ some a

-- The header of a slice that is not nil; its capacity is never read.
pub record Header : Type 0 where
  pub array : ℕ
  pub start : ℕ
  pub len : ℕ

module _ {A : Type 0} where
  abbrev pub elements : Header → List A → List A
  elements s xs = take s.len (drop s.start xs)

  abbrev pub and_then : {B : Type 0} → Option A → (A → Option B) → Option B
  and_then none f = none
  and_then (some a) f = f a

  abbrev pub or_panic : Option A → Outcome A
  or_panic none = panic
  or_panic (some a) = ret a

module _ {C A : Type 0} where
  -- What is at an address, if it is a cell of this kind.
  abbrev pub held : Slot C A → List C → ℕ → Option A
  held slot h p = and_then (get_elem? h p) slot.unpack

  -- *p, for a pointer that is not nil
  unfoldable pub load : Slot C A → ℕ → Prog (List C) A
  load slot p h = (or_panic (held slot h p), h)

  -- `if in.F != nil { *out = new(T); … }`: a new cell, with a copy of what the old one holds.
  unfoldable pub copy_pointer :
      Slot C A → (A → Prog (List C) A) → Option ℕ → Prog (List C) (Option ℕ)
  unfolding load alloc
  copy_pointer slot copy_cell none = pure none
  copy_pointer slot copy_cell (some p) = do
    x ← load slot p
    y ← copy_cell x
    q ← alloc (slot.pack y)
    pure (some q)

module _ {C A : Type 0} where
  -- `for i := range *in { (*in)[i].DeepCopyInto(&(*out)[i]) }`
  unfoldable pub copy_all : (A → Prog (List C) A) → List A → Prog (List C) (List A)
  copy_all copy_cell [] = pure []
  copy_all copy_cell (x ∷ xs) = do y ← copy_cell x; ys ← copy_all copy_cell xs; pure (y ∷ ys)

  -- `if in.F != nil { *out = make([]T, len(*in)); for … }`
  unfoldable pub copy_slice :
      Slot C (List A) → (A → Prog (List C) A) → Option Header → Prog (List C) (Option Header)
  unfolding load alloc copy_all
  copy_slice slot copy_cell none = pure none
  copy_slice slot copy_cell (some s) = do
    xs ← load slot s.array
    ys ← copy_all copy_cell (elements s xs)
    a ← alloc (slot.pack ys)
    pure (some (record { array = a; start = 0; len = s.len }))

-- `Shows h lo hi m v`: in the memory h, m stands for the value v, and the cells that are reached from
-- m have addresses from lo on and below hi. `copy` is DeepCopyInto: what it gets, as `*out` gets it.
pub record Layout (C M V : Type 0) : Type 1 where
  pub Shows : List C → ℕ → ℕ → M → V → Type 0
  pub copy : M → Prog (List C) M

-- A value is shown by its own cells, and a copy shows the same value by new cells.
pub record IsDeep {C M V : Type 0} (l : Layout C M V) : Type 0 where
  pub moves :
      (h h' : List C) (lo lo' hi hi' : ℕ) (m : M) (v : V)
      → lo' ≤ lo
      → hi ≤ hi'
      → AgreeOn lo hi h h'
      → l.Shows h lo hi m v
      → l.Shows h' lo' hi' m v
  pub copies :
      (h : List C) (lo hi : ℕ) (m : M) (v : V)
      → hi ≤ length h
      → l.Shows h lo hi m v
      → Goes h (l.copy m) (λ h' m'. l.Shows h' (length h) (length h') m' v)

module _ {C : Type 0} where
  -- A value that holds no pointer.
  abbrev pub plain : {A : Type 0} → Layout C A A
  plain = record { Shows = λ h lo hi m v. m ≡ v; copy = pure }

  -- An address in the range with a cell of this kind, whose content satisfies the predicate.
  abbrev pub Points : {A : Type 0} → Slot C A → List C → ℕ → ℕ → ℕ → (A → Type 0) → Type 0
  Points {A} slot h lo hi p P = (lo ≤ p) × (p < hi) × (x : A) × (held slot h p ≡ some x) × P x

  module _ {M V : Type 0} (slot : Slot C M) (l : Layout C M V) where
    abbrev pub ShowsPointer : List C → ℕ → ℕ → Option ℕ → Option V → Type 0
    ShowsPointer h lo hi none none = Unit
    ShowsPointer h lo hi none (some v) = ⊥
    ShowsPointer h lo hi (some p) none = ⊥
    ShowsPointer h lo hi (some p) (some v) = Points slot h lo hi p (λ m. l.Shows h lo hi m v)

    abbrev pub pointer : Layout C (Option ℕ) (Option V)
    pointer = record { Shows = ShowsPointer; copy = copy_pointer slot l.copy }

  module _ {M V : Type 0} (l : Layout C M V) where
    abbrev pub ShowsAll : List C → ℕ → ℕ → List M → List V → Type 0
    ShowsAll h lo hi [] [] = Unit
    ShowsAll h lo hi [] (v ∷ vs) = ⊥
    ShowsAll h lo hi (m ∷ ms) [] = ⊥
    ShowsAll h lo hi (m ∷ ms) (v ∷ vs) = l.Shows h lo hi m v × ShowsAll h lo hi ms vs

    -- The nil slice stands for the empty list.
    abbrev pub ShowsSlice : Slot C (List M) → List C → ℕ → ℕ → Option Header → List V → Type 0
    ShowsSlice slot h lo hi none [] = Unit
    ShowsSlice slot h lo hi none (v ∷ vs) = ⊥
    ShowsSlice slot h lo hi (some s) vs =
        (length vs ≡ s.len)
        × Points slot h lo hi s.array (λ ms. ShowsAll h lo hi (elements s ms) vs)

    abbrev pub slice : Slot C (List M) → Layout C (Option Header) (List V)
    slice slot = record { Shows = ShowsSlice slot; copy = copy_slice slot l.copy }

  abbrev pub ShowsMap : Slot C StringMap → List C → ℕ → ℕ → Option ℕ → Option StringMap → Type 0
  ShowsMap slot h lo hi none none = Unit
  ShowsMap slot h lo hi none (some v) = ⊥
  ShowsMap slot h lo hi (some p) none = ⊥
  ShowsMap slot h lo hi (some p) (some v) = Points slot h lo hi p (λ m. HasKeysOnce m × AreSame m v)

  -- `*out = make(map[string]string, len(*in)); for key, val := range *in { (*out)[key] = val }`
  abbrev pub string_map : Slot C StringMap → Layout C (Option ℕ) (Option StringMap)
  string_map slot = record {
    Shows = ShowsMap slot;
    copy = copy_pointer slot (λ m. pure (copy [] m));
  }
