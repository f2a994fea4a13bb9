-- ===== src/Kubernetes/Core.antt =====
-- The core and batch objects, with the fields that the program sets or reads. A quantity is held
-- in its text form: the program only copies it. An int32 counter of the server is never negative.
use mathlib.Core.Int.{ℤ}
use starknet_operators.Prelude.{ℕ, String, Bool, Option, List}
use starknet_operators.Prelude.StringMap.{StringMap}
use starknet_operators.Kubernetes.Meta.{ObjectMeta}

-- corev1.SecretKeySelector
pub record SecretKeySelector : Type 0 where
  pub name : String
  pub key : String
  pub optional : Option Bool

-- corev1.ResourceRequirements; the lists of quantities by resource name
pub record ResourceRequirements : Type 0 where
  pub limits : StringMap
  pub requests : StringMap
  pub claims : List String

-- corev1.Toleration
pub record Toleration : Type 0 where
  pub key : String
  pub operator : String
  pub value : String
  pub effect : String
  pub toleration_seconds : Option ℤ

-- corev1.EnvVar: a plain value, or a key of a secret
pub record EnvVar : Type 0 where
  pub name : String
  pub value : String
  pub value_from : Option SecretKeySelector

-- corev1.ContainerPort; an empty protocol is one that was not given
pub record ContainerPort : Type 0 where
  pub name : String
  pub container_port : ℕ
  pub protocol : String

-- corev1.VolumeMount
pub record VolumeMount : Type 0 where
  pub name : String
  pub mount_path : String

-- corev1.Volume over a persistent volume claim
pub record Volume : Type 0 where
  pub name : String
  pub claim_name : String

-- corev1.Container
pub record Container : Type 0 where
  pub name : String
  pub image : String
  pub image_pull_policy : String
  pub env : List EnvVar
  pub resources : ResourceRequirements
  pub ports : List ContainerPort
  pub volume_mounts : List VolumeMount

-- corev1.PodSecurityContext
pub record PodSecurityContext : Type 0 where
  pub run_as_user : Option ℕ
  pub run_as_group : Option ℕ
  pub fs_group : Option ℕ

-- corev1.PodSpec
pub record PodSpec : Type 0 where
  pub restart_policy : String
  pub containers : List Container
  pub volumes : List Volume
  pub tolerations : List Toleration
  pub security_context : Option PodSecurityContext

-- corev1.ContainerStatus; `waiting_reason` is the reason of `State.Waiting`, if that is not nil
pub record ContainerStatus : Type 0 where
  pub restart_count : ℕ
  pub waiting_reason : Option String

-- corev1.PodStatus
pub record PodStatus : Type 0 where
  pub phase : String
  pub reason : String
  pub container_statuses : List ContainerStatus

-- corev1.Pod
pub record Pod : Type 0 where
  pub meta : ObjectMeta
  pub spec : PodSpec
  pub status : PodStatus

-- corev1.PersistentVolumeClaimSpec; `storage_request` is the request for storage
pub record PvcSpec : Type 0 where
  pub access_modes : List String
  pub storage_class_name : Option String
  pub storage_request : String

-- corev1.PersistentVolumeClaim; `phase` is that of its status
pub record Pvc : Type 0 where
  pub meta : ObjectMeta
  pub spec : PvcSpec
  pub phase : String

-- batchv1.Job: the pod template, and the counters of its status
pub record Job : Type 0 where
  pub meta : ObjectMeta
  pub template : PodSpec
  pub succeeded : ℕ
  pub failed : ℕ
