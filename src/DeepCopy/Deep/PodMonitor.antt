-- ===== src/DeepCopy/Deep/PodMonitor.antt =====
-- The deep copy of a PodMonitor shares nothing with it.
use starknet_operators.Prelude.{ℕ, ◌≤◌, List, length}
use starknet_operators.V1alpha1.{PodMonitor}
use starknet_operators.DeepCopy.Heap.{AgreeOn, Extends-refl, Goes, pure-Goes}
use starknet_operators.DeepCopy.Goes.{◌>>=◌}
use starknet_operators.DeepCopy.Layout.{IsDeep}
use starknet_operators.DeepCopy.Pointers.{copied, moved, map-IsDeep}
use starknet_operators.DeepCopy.Memory.{
  Types, Cell, StoredMonitor, Library, IsDeepLibrary, map_slot,
}
use starknet_operators.DeepCopy.PodMonitor.{Shows, monitor, deep_copy_into}

module _ {t : Types} (lib : Library t) (deep : IsDeepLibrary lib) where
  copies :
      (h : List (Cell t)) (lo hi : ℕ) (m : StoredMonitor) (v : PodMonitor)
      → hi ≤ length h
      → Shows lib h lo hi m v
      → Goes h (deep_copy_into lib m) (λ h' m'. Shows lib h' (length h) (length h') m' v)
  unfolding deep_copy_into
  copies h lo hi m v fits (old_labels, same_enabled) =
      copied (map-IsDeep map_slot) m.labels v.labels fits (Extends-refl h) old_labels
      >>= λ labels h1 g1 new_labels. pure-Goes h1 _ (new_labels, same_enabled)

  moves :
      (h h' : List (Cell t)) (lo lo' hi hi' : ℕ) (m : StoredMonitor) (v : PodMonitor)
      → lo' ≤ lo
      → hi ≤ hi'
      → AgreeOn lo hi h h'
      → Shows lib h lo hi m v
      → Shows lib h' lo' hi' m v
  moves h h' lo lo' hi hi' m v low high agree (old_labels, same_enabled) =
      (moved (map-IsDeep map_slot) m.labels v.labels low high agree old_labels, same_enabled)

  pub monitor-IsDeep : IsDeep (monitor lib)
  monitor-IsDeep = record { moves = moves; copies = copies }
