-- ===== src/DeepCopy/Spec.antt =====
-- The deep copy of a StarknetRPCSpec (api/v1alpha1/zz_generated.deepcopy.go).
use starknet_operators.Prelude.{◌≡◌, ℕ, Option, List}
use starknet_operators.Prog.{Prog, pure, ◌>>=◌}
use starknet_operators.V1alpha1.{StarknetRpcSpec}
use starknet_operators.DeepCopy.Layout.{copy_pointer, copy_slice, Layout, plain, pointer, slice}
use starknet_operators.DeepCopy.Memory.{
  Types, Cell, StoredSpec, Library, string_slot, tolerations_slot, monitor_slot, spec_slot,
}
use starknet_operators.DeepCopy.StorageTemplate
use starknet_operators.DeepCopy.ArchiveSnapshot
use starknet_operators.DeepCopy.PodMonitor

module _ {t : Types} (lib : Library t) where
  unfoldable pub deep_copy_into : StoredSpec t → Prog (List (Cell t)) (StoredSpec t)
  unfolding copy_pointer copy_slice ArchiveSnapshot.deep_copy_into PodMonitor.deep_copy_into
      StorageTemplate.deep_copy_into
  deep_copy_into src = do
    restore_archive ← ArchiveSnapshot.deep_copy_into lib src.restore_archive
    resources ← lib.resources.copy src.resources
    image ← copy_pointer string_slot pure src.image
    storage ← StorageTemplate.deep_copy_into lib src.storage
    tolerations ← copy_slice tolerations_slot lib.toleration.copy src.tolerations
    layer1_rpc_secret ← lib.secret.copy src.layer1_rpc_secret
    pod_monitor ← copy_pointer monitor_slot (PodMonitor.deep_copy_into lib) src.pod_monitor
    pure (record src {
      restore_archive = restore_archive;
      resources = resources;
      image = image;
      storage = storage;
      tolerations = tolerations;
      layer1_rpc_secret = layer1_rpc_secret;
      pod_monitor = pod_monitor;
    })

  unfoldable pub deep_copy : Option ℕ → Prog (List (Cell t)) (Option ℕ)
  unfolding copy_pointer deep_copy_into
  deep_copy = copy_pointer spec_slot deep_copy_into

  abbrev pub Shows : List (Cell t) → ℕ → ℕ → StoredSpec t → StarknetRpcSpec → Type 0
  Shows h lo hi m v =
      (ArchiveSnapshot.snapshot lib).Shows h lo hi m.restore_archive v.restore_archive
      × (lib.resources).Shows h lo hi m.resources v.resources
      × (pointer string_slot plain).Shows h lo hi m.image v.image
      × (StorageTemplate.template lib).Shows h lo hi m.storage v.storage
      × (slice lib.toleration tolerations_slot).Shows h lo hi m.tolerations v.tolerations
      × (lib.secret).Shows h lo hi m.layer1_rpc_secret v.layer1_rpc_secret
      × (pointer monitor_slot (PodMonitor.monitor lib)).Shows h lo hi m.pod_monitor v.pod_monitor
      × (m.network ≡ v.network)

  abbrev pub spec : Layout (Cell t) (StoredSpec t) StarknetRpcSpec
  spec = record { Shows = Shows; copy = deep_copy_into }
