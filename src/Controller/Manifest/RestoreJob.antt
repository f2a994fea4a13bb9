-- ===== src/Controller/Manifest/RestoreJob.antt =====
-- internal/controller/starknetrpc_archive_restore.go: the job that restores the archive.
use starknet_operators.Prelude.{String, Option, none, some, List, [], ◌∷◌, ◌++◌}
use starknet_operators.Kubernetes.Core.{Job, Container, EnvVar, ResourceRequirements}
use starknet_operators.V1alpha1.{StarknetRpc, ArchiveSnapshot}
use starknet_operators.Controller.Manifest.Names.{
  get_storage_pvc_name, get_restore_pvc_name, get_restore_job_name,
}

abbrev image_or_default : Option String → String
image_or_default none = "ghcr.io/runelabsxyz/pathfinder-snapshotter:latest"
image_or_default (some image) = image

unfoldable pub get_image : ArchiveSnapshot → String
get_image snapshot = image_or_default snapshot.restore_image

abbrev plain : String → String → EnvVar
plain name value = record { name = name; value = value; value_from = none }

abbrev download_url : Option String → List EnvVar
download_url none = []
download_url (some config) = plain "PATHFINDER_DOWNLOAD_URL" config ∷ []

unfoldable pub get_env_vars : StarknetRpc → List EnvVar
get_env_vars cluster =
    (plain "PATHFINDER_NETWORK" cluster.spec.network
      ∷ plain "PATHFINDER_FILE_NAME" cluster.spec.restore_archive.file_name
      ∷ plain "PATHFINDER_CHECKSUM" cluster.spec.restore_archive.checksum
      ∷ [])
    ++ download_url cluster.spec.restore_archive.rsync_config

abbrev no_resources : ResourceRequirements
no_resources = record { limits = []; requests = []; claims = [] }

abbrev downloader : StarknetRpc → Container
downloader cluster = record {
  name = "archive-downloader";
  image = get_image cluster.spec.restore_archive;
  image_pull_policy = "";
  env = get_env_vars cluster;
  resources = no_resources;
  ports = [];
  volume_mounts =
      record { name = "snapshot-scratch"; mount_path = "/scratch" }
      ∷ record { name = "data"; mount_path = "/data" }
      ∷ [];
}

unfoldable pub get_wanted_restore_job : StarknetRpc → Job
unfolding get_restore_job_name get_image get_env_vars get_storage_pvc_name get_restore_pvc_name
get_wanted_restore_job cluster =
    let name_info = get_restore_job_name cluster in
    record {
      meta = record {
        name = name_info.name;
        namespace = name_info.namespace;
        uid = "";
        labels = some [];
        annotations = some [];
        owner_references = [];
      };
      template = record {
        restart_policy = "Never";
        containers = downloader cluster ∷ [];
        volumes =
            record { name = "data"; claim_name = (get_storage_pvc_name cluster).name }
            ∷ record { name = "snapshot-scratch"; claim_name = (get_restore_pvc_name cluster).name }
            ∷ [];
        tolerations = [];
        security_context = none;
      };
      succeeded = 0;
      failed = 0;
    }
