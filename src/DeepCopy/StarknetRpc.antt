-- ===== src/DeepCopy/StarknetRpc.antt =====
-- The deep copy of a StarknetRPC (api/v1alpha1/zz_generated.deepcopy.go).
use starknet_operators.Prelude.{◌≡◌, ℕ, Option, none, some, List}
use starknet_operators.Prog.{Prog, pure, ◌>>=◌}
use starknet_operators.V1alpha1.{StarknetRpc}
use starknet_operators.DeepCopy.Layout.{copy_pointer, copy_slice, Layout}
use starknet_operators.DeepCopy.Memory.{
  Types, Cell, StoredRpc, Library, RuntimeObject, starknet_rpc, rpc_slot,
}
use starknet_operators.DeepCopy.Spec
use starknet_operators.DeepCopy.Status

-- `if c := in.DeepCopy(); c != nil { return c }; return nil`
abbrev pub as_object : Option ℕ → Option RuntimeObject
as_object none = none
as_object (some p) = some (starknet_rpc p)

module _ {t : Types} (lib : Library t) where
  unfoldable pub deep_copy_into : StoredRpc t → Prog (List (Cell t)) (StoredRpc t)
  unfolding copy_pointer copy_slice Spec.deep_copy_into Status.deep_copy_into
  deep_copy_into src = do
    meta ← lib.object_meta.copy src.meta
    spec ← Spec.deep_copy_into lib src.spec
    status ← Status.deep_copy_into lib src.status
    pure (record src { meta = meta; spec = spec; status = status })

  unfoldable pub deep_copy : Option ℕ → Prog (List (Cell t)) (Option ℕ)
  unfolding copy_pointer deep_copy_into
  deep_copy = copy_pointer rpc_slot deep_copy_into

  unfoldable pub deep_copy_object : Option ℕ → Prog (List (Cell t)) (Option RuntimeObject)
  unfolding deep_copy
  deep_copy_object src = do c ← deep_copy src; pure (as_object c)

  abbrev pub Shows : List (Cell t) → ℕ → ℕ → StoredRpc t → StarknetRpc → Type 0
  Shows h lo hi m v =
      (lib.object_meta).Shows h lo hi m.meta v.meta
      × (Spec.spec lib).Shows h lo hi m.spec v.spec
      × (Status.status lib).Shows h lo hi m.status v.status
      × (m.api_version ≡ v.api_version)
      × (m.kind ≡ v.kind)

  abbrev pub rpc : Layout (Cell t) (StoredRpc t) StarknetRpc
  rpc = record { Shows = Shows; copy = deep_copy_into }
