-- ===== src/DeepCopy/Deep/Spec.antt =====
-- The deep copy of a StarknetRPCSpec shares nothing with it.
use starknet_operators.Prelude.{ℕ, ◌≤◌, List, length}
use starknet_operators.V1alpha1.{StarknetRpcSpec}
use starknet_operators.DeepCopy.Heap.{AgreeOn, Extends-refl, Goes, ◌then◌, pure-Goes}
use starknet_operators.DeepCopy.Goes.{◌>>=◌}
use starknet_operators.DeepCopy.Layout.{IsDeep, pointer, slice}
use starknet_operators.DeepCopy.Pointers.{copied, kept, moved, pointer-IsDeep}
use starknet_operators.DeepCopy.Arrays.{slice-IsDeep}
use starknet_operators.DeepCopy.Memory.{
  Types, Cell, StoredSpec, Library, IsDeepLibrary, tolerations_slot, monitor_slot,
}
use starknet_operators.DeepCopy.Spec.{Shows, spec, deep_copy_into}
use starknet_operators.DeepCopy.PodMonitor.{monitor}
use starknet_operators.DeepCopy.Deep.Fields.{string_pointer-IsDeep}
use starknet_operators.DeepCopy.Deep.StorageTemplate.{template-IsDeep}
use starknet_operators.DeepCopy.Deep.ArchiveSnapshot.{snapshot-IsDeep}
use starknet_operators.DeepCopy.Deep.PodMonitor.{monitor-IsDeep}

module _ {t : Types} (lib : Library t) (deep : IsDeepLibrary lib) where
  tolerations-IsDeep : IsDeep (slice lib.toleration tolerations_slot)
  tolerations-IsDeep = slice-IsDeep lib.toleration deep.toleration tolerations_slot

  pod_monitor-IsDeep : IsDeep (pointer monitor_slot (monitor lib))
  pod_monitor-IsDeep = pointer-IsDeep monitor_slot (monitor lib) (monitor-IsDeep lib deep)

  copies :
      (h : List (Cell t)) (lo hi : ℕ) (m : StoredSpec t) (v : StarknetRpcSpec)
      → hi ≤ length h
      → Shows lib h lo hi m v
      → Goes h (deep_copy_into lib m) (λ h' m'. Shows lib h' (length h) (length h') m' v)
  unfolding deep_copy_into
  copies h lo hi m v fits
        (
          old_archive, old_resources, old_image, old_storage, old_tolerations, old_secret,
          old_monitor, same_network,
        ) =
      copied (snapshot-IsDeep lib deep) m.restore_archive v.restore_archive fits (Extends-refl h)
        old_archive
      >>= λ archive h1 g1 new_archive.
          copied deep.resources m.resources v.resources fits g1 old_resources
          >>= λ resources h2 g2 new_resources.
              copied string_pointer-IsDeep m.image v.image fits (g1 then g2) old_image
              >>= λ image h3 g3 new_image.
                  copied (template-IsDeep lib deep) m.storage v.storage fits (g1 then g2 then g3)
                    old_storage
                  >>= λ storage h4 g4 new_storage.
                      copied tolerations-IsDeep m.tolerations v.tolerations fits
                        (g1 then g2 then g3 then g4) old_tolerations
                      >>= λ tolerations h5 g5 new_tolerations.
                          copied deep.secret m.layer1_rpc_secret v.layer1_rpc_secret fits
                            (g1 then g2 then g3 then g4 then g5) old_secret
                          >>= λ secret h6 g6 new_secret.
                              copied pod_monitor-IsDeep m.pod_monitor v.pod_monitor fits
                                (g1 then g2 then g3 then g4 then g5 then g6) old_monitor
                              >>= λ monitored h7 g7 new_monitor. pure-Goes h7 _ (
                                kept (snapshot-IsDeep lib deep) archive v.restore_archive
                                    (g2 then g3 then g4 then g5 then g6 then g7) new_archive,
                                kept deep.resources resources v.resources
                                    (g3 then g4 then g5 then g6 then g7) new_resources,
                                kept string_pointer-IsDeep image v.image
                                    (g4 then g5 then g6 then g7) new_image,
                                kept (template-IsDeep lib deep) storage v.storage
                                    (g5 then g6 then g7) new_storage,
                                kept tolerations-IsDeep tolerations v.tolerations (g6 then g7)
                                    new_tolerations,
                                kept deep.secret secret v.layer1_rpc_secret g7 new_secret,
                                new_monitor,
                                same_network,
                              )

  moves :
      (h h' : List (Cell t)) (lo lo' hi hi' : ℕ) (m : StoredSpec t) (v : StarknetRpcSpec)
      → lo' ≤ lo
      → hi ≤ hi'
      → AgreeOn lo hi h h'
      → Shows lib h lo hi m v
      → Shows lib h' lo' hi' m v
  moves h h' lo lo' hi hi' m v low high agree
        (
          old_archive, old_resources, old_image, old_storage, old_tolerations, old_secret,
          old_monitor, same_network,
        ) =
      (
        moved (snapshot-IsDeep lib deep) m.restore_archive v.restore_archive low high agree
            old_archive,
        moved deep.resources m.resources v.resources low high agree old_resources,
        moved string_pointer-IsDeep m.image v.image low high agree old_image,
        moved (template-IsDeep lib deep) m.storage v.storage low high agree old_storage,
        moved tolerations-IsDeep m.tolerations v.tolerations low high agree old_tolerations,
        moved deep.secret m.layer1_rpc_secret v.layer1_rpc_secret low high agree old_secret,
        moved pod_monitor-IsDeep m.pod_monitor v.pod_monitor low high agree old_monitor,
        same_network,
      )

  pub spec-IsDeep : IsDeep (spec lib)
  spec-IsDeep = record { moves = moves; copies = copies }
