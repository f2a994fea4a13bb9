-- ===== src/DeepCopy/StorageTemplate.antt =====
-- The deep copy of a StorageTemplate (api/v1alpha1/zz_generated.deepcopy.go).
use starknet_operators.Prelude.{◌≡◌, ℕ, Option, List}
use starknet_operators.Prog.{Prog, pure, ◌>>=◌}
use starknet_operators.V1alpha1.{StorageTemplate}
use starknet_operators.DeepCopy.Layout.{copy_pointer, Layout}
use starknet_operators.DeepCopy.Memory.{Types, Cell, StoredTemplate, template_slot, Library}

module _ {t : Types} (lib : Library t) where
  -- What `*out` gets: the fields of `*in`, with a copy of the quantity.
  unfoldable pub deep_copy_into : StoredTemplate t → Prog (List (Cell t)) (StoredTemplate t)
  deep_copy_into src = do size ← lib.quantity.copy src.size; pure (record src { size = size })

  unfoldable pub deep_copy : Option ℕ → Prog (List (Cell t)) (Option ℕ)
  unfolding copy_pointer deep_copy_into
  deep_copy = copy_pointer template_slot deep_copy_into

  abbrev pub Shows : List (Cell t) → ℕ → ℕ → StoredTemplate t → StorageTemplate → Type 0
  Shows h lo hi m v = lib.quantity.Shows h lo hi m.size v.size × (m.class ≡ v.class)

  abbrev pub template : Layout (Cell t) (StoredTemplate t) StorageTemplate
  template = record { Shows = Shows; copy = deep_copy_into }
