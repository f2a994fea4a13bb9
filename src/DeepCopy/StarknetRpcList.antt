-- ===== src/DeepCopy/StarknetRpcList.antt =====
-- The deep copy of a StarknetRPCList (api/v1alpha1/zz_generated.deepcopy.go).
use starknet_operators.Prelude.{◌≡◌, ℕ, Option, none, some, List}
use starknet_operators.Prog.{Prog, pure, ◌>>=◌}
use starknet_operators.V1alpha1.{StarknetRpcList}
use starknet_operators.DeepCopy.Layout.{copy_pointer, copy_slice, Layout, slice}
use starknet_operators.DeepCopy.Memory.{
  Types, Cell, StoredRpcList, Library, RuntimeObject, starknet_rpc_list, items_slot, rpc_list_slot,
}
use starknet_operators.DeepCopy.StarknetRpc

-- `if c := in.DeepCopy(); c != nil { return c }; return nil`
abbrev pub as_object : Option ℕ → Option RuntimeObject
as_object none = none
as_object (some p) = some (starknet_rpc_list p)

module _ {t : Types} (lib : Library t) where
  unfoldable pub deep_copy_into : StoredRpcList t → Prog (List (Cell t)) (StoredRpcList t)
  unfolding copy_pointer copy_slice StarknetRpc.deep_copy_into
  deep_copy_into src = do
    meta ← lib.list_meta.copy src.meta
    items ← copy_slice items_slot (StarknetRpc.deep_copy_into lib) src.items
    pure (record src { meta = meta; items = items })

  unfoldable pub deep_copy : Option ℕ → Prog (List (Cell t)) (Option ℕ)
  unfolding copy_pointer deep_copy_into
  deep_copy = copy_pointer rpc_list_slot deep_copy_into

  unfoldable pub deep_copy_object : Option ℕ → Prog (List (Cell t)) (Option RuntimeObject)
  unfolding deep_copy
  deep_copy_object src = do c ← deep_copy src; pure (as_object c)

  abbrev pub Shows : List (Cell t) → ℕ → ℕ → StoredRpcList t → StarknetRpcList → Type 0
  Shows h lo hi m v =
      (lib.list_meta).Shows h lo hi m.meta v.meta
      × (slice (StarknetRpc.rpc lib) items_slot).Shows h lo hi m.items v.items
      × (m.api_version ≡ v.api_version)
      × (m.kind ≡ v.kind)

  abbrev pub rpc_list : Layout (Cell t) (StoredRpcList t) StarknetRpcList
  rpc_list = record { Shows = Shows; copy = deep_copy_into }
