-- ===== src/DeepCopy/Deep/StorageTemplate.antt =====
-- The deep copy of a StorageTemplate shares nothing with it.
use starknet_operators.Prelude.{ℕ, ◌≤◌, List, length}
use starknet_operators.V1alpha1.{StorageTemplate}
use starknet_operators.DeepCopy.Heap.{AgreeOn, Extends-refl, Goes, pure-Goes}
use starknet_operators.DeepCopy.Goes.{◌>>=◌}
use starknet_operators.DeepCopy.Layout.{IsDeep}
use starknet_operators.DeepCopy.Pointers.{copied, moved}
use starknet_operators.DeepCopy.Memory.{Types, Cell, StoredTemplate, Library, IsDeepLibrary}
use starknet_operators.DeepCopy.StorageTemplate.{Shows, template, deep_copy_into}

module _ {t : Types} (lib : Library t) (deep : IsDeepLibrary lib) where
  copies :
      (h : List (Cell t)) (lo hi : ℕ) (m : StoredTemplate t) (v : StorageTemplate)
      → hi ≤ length h
      → Shows lib h lo hi m v
      → Goes h (deep_copy_into lib m) (λ h' m'. Shows lib h' (length h) (length h') m' v)
  unfolding deep_copy_into
  copies h lo hi m v fits (old_size, same_class) =
      copied deep.quantity m.size v.size fits (Extends-refl h) old_size >>= λ size h1 g1 new_size.
      pure-Goes h1 _ (new_size, same_class)

  moves :
      (h h' : List (Cell t)) (lo lo' hi hi' : ℕ) (m : StoredTemplate t) (v : StorageTemplate)
      → lo' ≤ lo
      → hi ≤ hi'
      → AgreeOn lo hi h h'
      → Shows lib h lo hi m v
      → Shows lib h' lo' hi' m v
  moves h h' lo lo' hi hi' m v low high agree (old_size, same_class) =
      (moved deep.quantity m.size v.size low high agree old_size, same_class)

  pub template-IsDeep : IsDeep (template lib)
  template-IsDeep = record { moves = moves; copies = copies }
