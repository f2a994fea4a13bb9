-- ===== src/DeepCopy/Deep/StarknetRpc.antt =====
-- The deep copy of a StarknetRPC shares nothing with it.
use starknet_operators.Prelude.{◌≡◌, ap, ℕ, ◌≤◌, some, List, length}
use starknet_operators.Prog.{ret, continue, pure}
use starknet_operators.V1alpha1.{StarknetRpc}
use starknet_operators.DeepCopy.Heap.{AgreeOn, Extends, Extends-refl, Goes, ◌then◌, pure-Goes}
use starknet_operators.DeepCopy.Goes.{◌>>=◌}
use starknet_operators.DeepCopy.Layout.{IsDeep, pointer}
use starknet_operators.DeepCopy.Pointers.{copied, kept, moved, copy_pointer-some}
use starknet_operators.DeepCopy.Memory.{
  Types, Cell, StoredRpc, Library, IsDeepLibrary, starknet_rpc, rpc_slot,
}
use starknet_operators.DeepCopy.StarknetRpc.{
  Shows, rpc, deep_copy_into, deep_copy, deep_copy_object, as_object,
}
use starknet_operators.DeepCopy.Deep.Spec.{spec-IsDeep}
use starknet_operators.DeepCopy.Deep.Status.{status-IsDeep}

module _ {t : Types} (lib : Library t) (deep : IsDeepLibrary lib) where
  copies :
      (h : List (Cell t)) (lo hi : ℕ) (m : StoredRpc t) (v : StarknetRpc)
      → hi ≤ length h
      → Shows lib h lo hi m v
      → Goes h (deep_copy_into lib m) (λ h' m'. Shows lib h' (length h) (length h') m' v)
  unfolding deep_copy_into
  copies h lo hi m v fits (old_meta, old_spec, old_status, same_api_version, same_kind) =
      copied deep.object_meta m.meta v.meta fits (Extends-refl h) old_meta
      >>= λ meta h1 g1 new_meta.
          copied (spec-IsDeep lib deep) m.spec v.spec fits g1 old_spec >>= λ spec h2 g2 new_spec.
          copied (status-IsDeep lib deep) m.status v.status fits (g1 then g2) old_status
          >>= λ status h3 g3 new_status. pure-Goes h3 _ (
            kept deep.object_meta meta v.meta (g2 then g3) new_meta,
            kept (spec-IsDeep lib deep) spec v.spec g3 new_spec,
            new_status,
            same_api_version,
            same_kind,
          )

  moves :
      (h h' : List (Cell t)) (lo lo' hi hi' : ℕ) (m : StoredRpc t) (v : StarknetRpc)
      → lo' ≤ lo
      → hi ≤ hi'
      → AgreeOn lo hi h h'
      → Shows lib h lo hi m v
      → Shows lib h' lo' hi' m v
  moves h h' lo lo' hi hi' m v low high agree
        (old_meta, old_spec, old_status, same_api_version, same_kind) =
      (
        moved deep.object_meta m.meta v.meta low high agree old_meta,
        moved (spec-IsDeep lib deep) m.spec v.spec low high agree old_spec,
        moved (status-IsDeep lib deep) m.status v.status low high agree old_status,
        same_api_version,
        same_kind,
      )

  pub rpc-IsDeep : IsDeep (rpc lib)
  rpc-IsDeep = record { moves = moves; copies = copies }

  -- If the copies that the libraries make are deep, and a pointer stands for a resource in a
  -- memory, then its DeepCopyObject returns and does not panic, no cell that was there is
  -- changed, and the pointer that comes back stands for the same resource by cells that were not
  -- there before.
  pub deep_copy_object-copies :
      (h : List (Cell t)) (p : ℕ) (v : StarknetRpc)
      → (pointer rpc_slot (rpc lib)).Shows h 0 (length h) (some p) (some v)
      → (q : ℕ) × (h' : List (Cell t)) × (deep_copy_object lib (some p) h
          ≡ (ret (some (starknet_rpc q)), h'))
        × Extends h h'
        × (pointer rpc_slot (rpc lib)).Shows h' (length h) (length h') (some q) (some v)
  unfolding deep_copy_object deep_copy
  deep_copy_object-copies h p v shown =
      let (q, h', e, g, new) = copy_pointer-some rpc_slot (rpc lib) rpc-IsDeep h p v shown in
      (q, h', ap (λ r. continue r.0 (λ c. pure (as_object c)) r.1) e, g, new)
