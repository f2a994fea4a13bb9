-- ===== src/DeepCopy/PodMonitor.antt =====
-- The deep copy of a PodMonitor (api/v1alpha1/zz_generated.deepcopy.go).
use starknet_operators.Prelude.{◌≡◌, ℕ, Option, List}
use starknet_operators.Prog.{Prog, pure, ◌>>=◌}
use starknet_operators.V1alpha1.{PodMonitor}
use starknet_operators.DeepCopy.Layout.{copy_pointer, copy_slice, Layout, string_map}
use starknet_operators.DeepCopy.Memory.{
  Types, Cell, StoredMonitor, Library, map_slot, monitor_slot, monitor_slot,
}
use starknet_operators.Prelude.{[]}
use starknet_operators.Prelude.StringMap.{copy}

module _ {t : Types} (lib : Library t) where
  unfoldable pub deep_copy_into : StoredMonitor → Prog (List (Cell t)) (StoredMonitor)
  unfolding copy_pointer copy_slice
  deep_copy_into src = do
    labels ← copy_pointer map_slot (λ m. pure (copy [] m)) src.labels
    pure (record src { labels = labels })

  unfoldable pub deep_copy : Option ℕ → Prog (List (Cell t)) (Option ℕ)
  unfolding copy_pointer deep_copy_into
  deep_copy = copy_pointer monitor_slot deep_copy_into

  abbrev pub Shows : List (Cell t) → ℕ → ℕ → StoredMonitor → PodMonitor → Type 0
  Shows h lo hi m v =
      (string_map map_slot).Shows h lo hi m.labels v.labels × (m.enabled ≡ v.enabled)

  abbrev pub monitor : Layout (Cell t) (StoredMonitor) PodMonitor
  monitor = record { Shows = Shows; copy = deep_copy_into }
