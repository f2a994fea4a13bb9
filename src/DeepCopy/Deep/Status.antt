-- ===== src/DeepCopy/Deep/Status.antt =====
-- The deep copy of a StarknetRPCStatus shares nothing with it.
use starknet_operators.Prelude.{ℕ, ◌≤◌, List, length}
use starknet_operators.V1alpha1.{StarknetRpcStatus}
use starknet_operators.DeepCopy.Heap.{AgreeOn, Extends-refl, Goes, pure-Goes}
use starknet_operators.DeepCopy.Goes.{◌>>=◌}
use starknet_operators.DeepCopy.Layout.{IsDeep}
use starknet_operators.DeepCopy.Pointers.{copied, moved}
use starknet_operators.DeepCopy.Arrays.{slice-IsDeep}
use starknet_operators.DeepCopy.Memory.{
  Types, Cell, StoredStatus, Library, IsDeepLibrary, conditions_slot,
}
use starknet_operators.DeepCopy.Status.{Shows, status, deep_copy_into}

module _ {t : Types} (lib : Library t) (deep : IsDeepLibrary lib) where
  copies :
      (h : List (Cell t)) (lo hi : ℕ) (m : StoredStatus) (v : StarknetRpcStatus)
      → hi ≤ length h
      → Shows lib h lo hi m v
      → Goes h (deep_copy_into lib m) (λ h' m'. Shows lib h' (length h) (length h') m' v)
  unfolding deep_copy_into
  copies h lo hi m v fits old_conditions =
      copied (slice-IsDeep lib.condition deep.condition conditions_slot) m.conditions v.conditions
        fits (Extends-refl h) old_conditions
      >>= λ conditions h1 g1 new_conditions. pure-Goes h1 _ new_conditions

  moves :
      (h h' : List (Cell t)) (lo lo' hi hi' : ℕ) (m : StoredStatus) (v : StarknetRpcStatus)
      → lo' ≤ lo
      → hi ≤ hi'
      → AgreeOn lo hi h h'
      → Shows lib h lo hi m v
      → Shows lib h' lo' hi' m v
  moves h h' lo lo' hi hi' m v low high agree old_conditions =
      moved (slice-IsDeep lib.condition deep.condition conditions_slot) m.conditions v.conditions
        low high agree old_conditions

  pub status-IsDeep : IsDeep (status lib)
  status-IsDeep = record { moves = moves; copies = copies }
