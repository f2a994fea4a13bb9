-- ===== src/DeepCopy/Status.antt =====
-- The deep copy of a StarknetRPCStatus (api/v1alpha1/zz_generated.deepcopy.go).
use starknet_operators.Prelude.{ℕ, Option, List}
use starknet_operators.Prog.{Prog, pure, ◌>>=◌}
use starknet_operators.V1alpha1.{StarknetRpcStatus}
use starknet_operators.DeepCopy.Layout.{copy_pointer, copy_slice, Layout, slice}
use starknet_operators.DeepCopy.Memory.{
  Types, Cell, StoredStatus, Library, conditions_slot, status_slot,
}

module _ {t : Types} (lib : Library t) where
  unfoldable pub deep_copy_into : StoredStatus → Prog (List (Cell t)) (StoredStatus)
  unfolding copy_pointer copy_slice
  deep_copy_into src = do
    conditions ← copy_slice conditions_slot lib.condition.copy src.conditions
    pure (record src { conditions = conditions })

  unfoldable pub deep_copy : Option ℕ → Prog (List (Cell t)) (Option ℕ)
  unfolding copy_pointer deep_copy_into
  deep_copy = copy_pointer status_slot deep_copy_into

  abbrev pub Shows : List (Cell t) → ℕ → ℕ → StoredStatus → StarknetRpcStatus → Type 0
  Shows h lo hi m v = (slice lib.condition conditions_slot).Shows h lo hi m.conditions v.conditions

  abbrev pub status : Layout (Cell t) (StoredStatus) StarknetRpcStatus
  status = record { Shows = Shows; copy = deep_copy_into }
