-- ===== src/DeepCopy/Deep/StarknetRpcList.antt =====
-- The deep copy of a StarknetRPCList shares nothing with it.
use starknet_operators.Prelude.{◌≡◌, ap, ℕ, ◌≤◌, some, List, length}
use starknet_operators.Prog.{ret, continue, pure}
use starknet_operators.V1alpha1.{StarknetRpcList}
use starknet_operators.DeepCopy.Heap.{AgreeOn, Extends, Extends-refl, Goes, pure-Goes}
use starknet_operators.DeepCopy.Goes.{◌>>=◌}
use starknet_operators.DeepCopy.Layout.{IsDeep, pointer}
use starknet_operators.DeepCopy.Pointers.{copied, kept, moved, copy_pointer-some}
use starknet_operators.DeepCopy.Arrays.{slice-IsDeep}
use starknet_operators.DeepCopy.Memory.{
  Types, Cell, StoredRpcList, Library, IsDeepLibrary, starknet_rpc_list, items_slot, rpc_list_slot,
}
use starknet_operators.DeepCopy.StarknetRpcList.{
  Shows, rpc_list, deep_copy_into, deep_copy, deep_copy_object, as_object,
}
use starknet_operators.DeepCopy.StarknetRpc.{rpc}
use starknet_operators.DeepCopy.Deep.StarknetRpc.{rpc-IsDeep}

module _ {t : Types} (lib : Library t) (deep : IsDeepLibrary lib) where
  copies :
      (h : List (Cell t)) (lo hi : ℕ) (m : StoredRpcList t) (v : StarknetRpcList)
      → hi ≤ length h
      → Shows lib h lo hi m v
      → Goes h (deep_copy_into lib m) (λ h' m'. Shows lib h' (length h) (length h') m' v)
  unfolding deep_copy_into
  copies h lo hi m v fits (old_meta, old_items, same_api_version, same_kind) =
      copied deep.list_meta m.meta v.meta fits (Extends-refl h) old_meta >>= λ meta h1 g1 new_meta.
      copied (slice-IsDeep (rpc lib) (rpc-IsDeep lib deep) items_slot) m.items v.items fits g1
        old_items
      >>= λ items h2 g2 new_items.
          pure-Goes h2 _
            (kept deep.list_meta meta v.meta g2 new_meta, new_items, same_api_version, same_kind)

  moves :
      (h h' : List (Cell t)) (lo lo' hi hi' : ℕ) (m : StoredRpcList t) (v : StarknetRpcList)
      → lo' ≤ lo
      → hi ≤ hi'
      → AgreeOn lo hi h h'
      → Shows lib h lo hi m v
      → Shows lib h' lo' hi' m v
  moves h h' lo lo' hi hi' m v low high agree (old_meta, old_items, same_api_version, same_kind) = (
    moved deep.list_meta m.meta v.meta low high agree old_meta,
    moved (slice-IsDeep (rpc lib) (rpc-IsDeep lib deep) items_slot) m.items v.items low high agree
        old_items,
    same_api_version,
    same_kind,
  )

  pub rpc_list-IsDeep : IsDeep (rpc_list lib)
  rpc_list-IsDeep = record { moves = moves; copies = copies }

  -- If the copies that the libraries make are deep, and a pointer stands for a list of resources
  -- in a memory, then its DeepCopyObject returns and does not panic, no cell that was there is
  -- changed, and the pointer that comes back stands for the same list, with all of its resources,
  -- by cells that were not there before.
  pub deep_copy_object-copies_items :
      (h : List (Cell t)) (p : ℕ) (v : StarknetRpcList)
      → (pointer rpc_list_slot (rpc_list lib)).Shows h 0 (length h) (some p) (some v)
      → (q : ℕ) × (h' : List (Cell t)) × (deep_copy_object lib (some p) h
          ≡ (ret (some (starknet_rpc_list q)), h'))
        × Extends h h'
        × (pointer rpc_list_slot (rpc_list lib)).Shows h' (length h) (length h') (some q) (some v)
  unfolding deep_copy_object deep_copy
  deep_copy_object-copies_items h p v shown =
      let (q, h', e, g, new) =
        copy_pointer-some rpc_list_slot (rpc_list lib) rpc_list-IsDeep h p v shown in
      (q, h', ap (λ r. continue r.0 (λ c. pure (as_object c)) r.1) e, g, new)
