-- ===== src/Manager/Slices.antt =====
-- Go's slices: a header over an array that several headers may share. `append` writes in place where
-- the array has room, and moves to a new array where it has none.
use starknet_operators.Prelude.{
  ℕ, zero, suc, ltb, if◌then◌else◌, List, [], ◌∷◌, ◌++◌, length, set, take,
}

-- The arrays that were made, each with the elements that were written.
abbrev pub Memory : Type 0 → Type 0
Memory A = List (List A)

pub record Slice : Type 0 where
  pub array : ℕ
  pub len : ℕ
  pub cap : ℕ

-- The nil slice has no room, so its array is never read.
abbrev pub nil_slice : Slice
nil_slice = record { array = 0; len = 0; cap = 0 }

module _ {A : Type 0} where
  -- The elements before an index, the new one, and those after it.
  abbrev pub write : List A → ℕ → A → List A
  write [] i v = v ∷ []
  write (x ∷ xs) zero v = v ∷ xs
  write (x ∷ xs) (suc i) v = x ∷ write xs i v

  abbrev pub array_at : Memory A → ℕ → List A
  array_at [] i = []
  array_at (a ∷ m) zero = a
  array_at (a ∷ m) (suc i) = array_at m i

  -- The elements that a header shows.
  unfoldable pub contents : Memory A → Slice → List A
  contents m s = take s.len (array_at m s.array)

  -- append(s, x); `grow` is the new capacity that the runtime chooses.
  unfoldable pub append : (ℕ → ℕ → ℕ) → Slice → A → Memory A → Slice × Memory A
  unfolding contents
  append grow s x m =
      if ltb s.len s.cap
      then (record s { len = suc s.len }, set m s.array (write (array_at m s.array) s.len x))
      else (
        record { array = length m; len = suc s.len; cap = grow s.cap (suc s.len) },
        m ++ (contents m s ++ x ∷ []) ∷ [],
      )
