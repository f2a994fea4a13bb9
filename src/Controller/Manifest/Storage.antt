-- ===== src/Controller/Manifest/Storage.antt =====
-- internal/controller: the claim of the node's storage (starknetrpc_pvc.go) and the scratch claim
-- of the restore (starknetrpc_archive_restore.go).
use starknet_operators.Prelude.{some, [], ◌∷◌}
use starknet_operators.Kubernetes.Core.{Pvc}
use starknet_operators.V1alpha1.{StarknetRpc}
use starknet_operators.Controller.Manifest.Names.{get_storage_pvc_name, get_restore_pvc_name, owner}

unfoldable pub get_wanted_pvc : StarknetRpc → Pvc
unfolding get_storage_pvc_name
get_wanted_pvc cluster =
    let name_info = get_storage_pvc_name cluster in
    record {
      meta = record {
        name = name_info.name;
        namespace = name_info.namespace;
        uid = "";
        labels = some [];
        annotations = some [];
        owner_references = owner cluster ∷ [];
      };
      spec = record {
        access_modes = "ReadWriteOnce" ∷ [];
        storage_class_name = some cluster.spec.storage.class;
        storage_request = cluster.spec.storage.size;
      };
      phase = "";
    }

unfoldable pub get_wanted_restore_pvc : StarknetRpc → Pvc
unfolding get_restore_pvc_name
get_wanted_restore_pvc cluster =
    let name_info = get_restore_pvc_name cluster in
    record {
      meta = record {
        name = name_info.name;
        namespace = name_info.namespace;
        uid = "";
        labels = some [];
        annotations = some [];
        owner_references = owner cluster ∷ [];
      };
      spec = record {
        access_modes = "ReadWriteOnce" ∷ [];
        storage_class_name = some cluster.spec.storage.class;
        storage_request = cluster.spec.storage.size;
      };
      phase = "";
    }
