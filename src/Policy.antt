-- ===== src/Policy.antt =====
-- The permitted calls of a run, by the copy of the resource that the run holds at the call.
pub mod Pvc
pub mod Create
pub mod Pod
pub mod Monitor
pub mod Run
pub mod Restore
pub mod Claims
use starknet_operators.Prelude.{Bool, true, false, ◌≡◌, ◌⊎◌, Option, some, none, List, [], ◌∷◌}
use starknet_operators.Prog.{Outcome, ret}
use starknet_operators.Kubernetes.Meta.{background}
use starknet_operators.Kubernetes.Client.{Kube}
use starknet_operators.V1alpha1.{StarknetRpc}
use starknet_operators.Pass.{
  Object, of_pod, of_pvc, of_job, of_pod_monitor, Call, create_call, get_call, pvc_kind,
  update_call, delete_call, update_status_call, proxy_call, event_call, Entry, Pass, M,
}
use starknet_operators.Controller.Manifest.Storage.{get_wanted_pvc, get_wanted_restore_pvc}
use starknet_operators.Controller.Manifest.RestoreJob.{get_wanted_restore_job}
use starknet_operators.Controller.Manifest.RpcPod.{get_wanted_pod}
use starknet_operators.Controller.Manifest.Monitor.{get_wanted_pod_monitor}
use starknet_operators.Controller.Manifest.Names.{get_storage_pvc_name}
use starknet_operators.Controller.Pvc.{is_ready}
use starknet_operators.Controller.Restore.{restore_done, is_disabled}
use starknet_operators.Controller.Pod.{image_is_up_to_date, should_pod_get_recreated}
use starknet_operators.Controller.PodMonitor.{monitor_is_up_to_date, is_monitored}

-- A restore is under way: it is wanted, and it is not done.
abbrev pub IsRestoring : Kube → StarknetRpc → Type 0
IsRestoring k rpc =
    (restore_done k rpc ≡ false) × (is_disabled rpc.spec.restore_archive.enable ≡ false)

-- The object of the latest call.
abbrev pub last_sent : List Entry → Option Object
last_sent [] = none
last_sent (e ∷ _) = e.sent

abbrev pub IsBound : Option Object → Type 0
IsBound (some (of_pvc x)) = is_ready x ≡ true
IsBound _ = ⊥

-- The latest call read the storage claim and the one before it another claim; both are bound.
abbrev pub HasBoundClaims : StarknetRpc → List Entry → Type 0
HasBoundClaims rpc (e ∷ d ∷ _) =
    (e.call ≡ get_call pvc_kind (get_storage_pvc_name rpc)) × IsBound e.sent × IsBound d.sent
HasBoundClaims rpc _ = ⊥

abbrev pub IsPod : Option Object → Type 0
IsPod (some (of_pod _)) = Unit
IsPod _ = ⊥

abbrev pub MayCreate : Kube → Object → StarknetRpc → List Entry → Type 0
MayCreate k (of_pod x) rpc before = (x ≡ get_wanted_pod rpc) × (restore_done k rpc ≡ true)
MayCreate k (of_pvc x) rpc before =
    (x ≡ get_wanted_pvc rpc) ⊎ ((x ≡ get_wanted_restore_pvc rpc) × IsRestoring k rpc)
MayCreate k (of_job x) rpc before =
    (x ≡ get_wanted_restore_job rpc) × IsRestoring k rpc × HasBoundClaims rpc before
MayCreate k (of_pod_monitor x) rpc before =
    (x ≡ get_wanted_pod_monitor rpc)
    × (is_monitored rpc.spec.pod_monitor ≡ true)
    × IsPod (last_sent before)

-- The object that was just read is stale, and the one that is sent is not.
abbrev pub MayUpdate : Object → StarknetRpc → Option Object → Type 0
MayUpdate (of_pod x) rpc (some (of_pod y)) =
    (image_is_up_to_date rpc y ≡ ret false) × (image_is_up_to_date rpc x ≡ ret true)
MayUpdate (of_pod_monitor x) rpc (some (of_pod_monitor y)) =
    (monitor_is_up_to_date rpc y ≡ ret false) × (monitor_is_up_to_date rpc x ≡ ret true)
MayUpdate _ _ _ = ⊥

abbrev pub MayDelete : Kube → Object → StarknetRpc → Option Object → Type 0
MayDelete k (of_pod x) rpc sent = should_pod_get_recreated x ≡ true
MayDelete k (of_pvc x) rpc sent = (x ≡ get_wanted_restore_pvc rpc) × (restore_done k rpc ≡ true)
MayDelete k (of_job x) rpc sent = (x ≡ get_wanted_restore_job rpc) × (restore_done k rpc ≡ true)
MayDelete k (of_pod_monitor x) rpc sent =
    (is_monitored rpc.spec.pod_monitor ≡ false) × (sent ≡ some (of_pod_monitor x))

-- A call, the resource at that time, and the calls before it.
abbrev pub IsPermitted : Kube → Call → StarknetRpc → List Entry → Type 0
IsPermitted k (create_call x) rpc before = MayCreate k x rpc before
IsPermitted k (update_call x) rpc before = MayUpdate x rpc (last_sent before)
IsPermitted k (delete_call x o) rpc before = MayDelete k x rpc (last_sent before)
IsPermitted k (update_status_call r) rpc before = r ≡ rpc
IsPermitted k _ rpc before = Unit

abbrev pub AreLawful : Kube → List Entry → Type 0
AreLawful k [] = Unit
AreLawful k (e ∷ before) = IsPermitted k e.call e.rpc before × AreLawful k before

abbrev pub Obeys : {k : Kube} → Pass k → Type 0
Obeys {k} p = AreLawful k p.calls
