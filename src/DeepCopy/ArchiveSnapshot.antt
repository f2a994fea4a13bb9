-- ===== src/DeepCopy/ArchiveSnapshot.antt =====
-- The deep copy of a ArchiveSnapshot (api/v1alpha1/zz_generated.deepcopy.go).
use starknet_operators.Prelude.{◌≡◌, ℕ, Option, List}
use starknet_operators.Prog.{Prog, pure, ◌>>=◌}
use starknet_operators.V1alpha1.{ArchiveSnapshot}
use starknet_operators.DeepCopy.Layout.{copy_pointer, copy_slice, Layout, plain, pointer}
use starknet_operators.DeepCopy.Memory.{
  Types, Cell, StoredSnapshot, Library, bool_slot, string_slot, snapshot_slot,
}
use starknet_operators.DeepCopy.StorageTemplate

module _ {t : Types} (lib : Library t) where
  unfoldable pub deep_copy_into : StoredSnapshot t → Prog (List (Cell t)) (StoredSnapshot t)
  unfolding copy_pointer copy_slice StorageTemplate.deep_copy_into
  deep_copy_into src = do
    enable ← copy_pointer bool_slot pure src.enable
    rsync_config ← copy_pointer string_slot pure src.rsync_config
    restore_image ← copy_pointer string_slot pure src.restore_image
    storage ← StorageTemplate.deep_copy_into lib src.storage
    pure (record src {
      enable = enable;
      rsync_config = rsync_config;
      restore_image = restore_image;
      storage = storage;
    })

  unfoldable pub deep_copy : Option ℕ → Prog (List (Cell t)) (Option ℕ)
  unfolding copy_pointer deep_copy_into
  deep_copy = copy_pointer snapshot_slot deep_copy_into

  abbrev pub Shows : List (Cell t) → ℕ → ℕ → StoredSnapshot t → ArchiveSnapshot → Type 0
  Shows h lo hi m v =
      (pointer bool_slot plain).Shows h lo hi m.enable v.enable
      × (pointer string_slot plain).Shows h lo hi m.rsync_config v.rsync_config
      × (pointer string_slot plain).Shows h lo hi m.restore_image v.restore_image
      × (StorageTemplate.template lib).Shows h lo hi m.storage v.storage
      × (m.file_name ≡ v.file_name)
      × (m.checksum ≡ v.checksum)

  abbrev pub snapshot : Layout (Cell t) (StoredSnapshot t) ArchiveSnapshot
  snapshot = record { Shows = Shows; copy = deep_copy_into }
