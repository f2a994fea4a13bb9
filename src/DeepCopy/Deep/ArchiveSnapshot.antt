-- ===== src/DeepCopy/Deep/ArchiveSnapshot.antt =====
-- The deep copy of a ArchiveSnapshot shares nothing with it.
use starknet_operators.Prelude.{ℕ, ◌≤◌, List, length}
use starknet_operators.V1alpha1.{ArchiveSnapshot}
use starknet_operators.DeepCopy.Heap.{AgreeOn, Extends-refl, Goes, ◌then◌, pure-Goes}
use starknet_operators.DeepCopy.Goes.{◌>>=◌}
use starknet_operators.DeepCopy.Layout.{IsDeep}
use starknet_operators.DeepCopy.Pointers.{copied, kept, moved}
use starknet_operators.DeepCopy.Memory.{Types, Cell, StoredSnapshot, Library, IsDeepLibrary}
use starknet_operators.DeepCopy.ArchiveSnapshot.{Shows, snapshot, deep_copy_into}
use starknet_operators.DeepCopy.Deep.Fields.{bool_pointer-IsDeep, string_pointer-IsDeep}
use starknet_operators.DeepCopy.Deep.StorageTemplate.{template-IsDeep}

module _ {t : Types} (lib : Library t) (deep : IsDeepLibrary lib) where
  copies :
      (h : List (Cell t)) (lo hi : ℕ) (m : StoredSnapshot t) (v : ArchiveSnapshot)
      → hi ≤ length h
      → Shows lib h lo hi m v
      → Goes h (deep_copy_into lib m) (λ h' m'. Shows lib h' (length h) (length h') m' v)
  unfolding deep_copy_into
  copies h lo hi m v fits
        (old_enable, old_rsync, old_image, old_storage, same_file_name, same_checksum) =
      copied bool_pointer-IsDeep m.enable v.enable fits (Extends-refl h) old_enable
      >>= λ enable h1 g1 new_enable.
          copied string_pointer-IsDeep m.rsync_config v.rsync_config fits g1 old_rsync
          >>= λ rsync_config h2 g2 new_rsync.
              copied string_pointer-IsDeep m.restore_image v.restore_image fits (g1 then g2)
                old_image
              >>= λ restore_image h3 g3 new_image.
                  copied (template-IsDeep lib deep) m.storage v.storage fits (g1 then g2 then g3)
                    old_storage
                  >>= λ storage h4 g4 new_storage. pure-Goes h4 _ (
                    kept bool_pointer-IsDeep enable v.enable (g2 then g3 then g4) new_enable,
                    kept string_pointer-IsDeep rsync_config v.rsync_config (g3 then g4) new_rsync,
                    kept string_pointer-IsDeep restore_image v.restore_image g4 new_image,
                    new_storage,
                    same_file_name,
                    same_checksum,
                  )

  moves :
      (h h' : List (Cell t)) (lo lo' hi hi' : ℕ) (m : StoredSnapshot t) (v : ArchiveSnapshot)
      → lo' ≤ lo
      → hi ≤ hi'
      → AgreeOn lo hi h h'
      → Shows lib h lo hi m v
      → Shows lib h' lo' hi' m v
  moves h h' lo lo' hi hi' m v low high agree
        (old_enable, old_rsync, old_image, old_storage, same_file_name, same_checksum) =
      (
        moved bool_pointer-IsDeep m.enable v.enable low high agree old_enable,
        moved string_pointer-IsDeep m.rsync_config v.rsync_config low high agree old_rsync,
        moved string_pointer-IsDeep m.restore_image v.restore_image low high agree old_image,
        moved (template-IsDeep lib deep) m.storage v.storage low high agree old_storage,
        same_file_name,
        same_checksum,
      )

  pub snapshot-IsDeep : IsDeep (snapshot lib)
  snapshot-IsDeep = record { moves = moves; copies = copies }
