-- ===== src/Pass.antt =====
-- One run of the reconciler: the server's state, the program's copy of the resource, which the
-- handlers share by pointer and change in place, and the calls made so far, the latest first.
-- Each call is kept with the copy of the resource as it stood when the call was made.
use starknet_operators.Prelude.{Bool, false, true, ℕ, ◌*◌, ◌^◌, Option, none, some, List, [], ◌∷◌}
use starknet_operators.Prog.{Prog, ret}
use starknet_operators.Kubernetes.Meta.{NamespacedName, ObjectMeta, DeletionPropagation}
use starknet_operators.Kubernetes.Core.{Pod, Pvc, Job}
use starknet_operators.Kubernetes.Monitoring.{PodMonitorObject}
use starknet_operators.Kubernetes.Client.{Kube, Resource, Answer, ok, err, ProxyRequest, Event}
use starknet_operators.V1alpha1.{StarknetRpc}

pub data Object : Type 0 where
  of_pod : Pod → Object
  of_pvc : Pvc → Object
  of_job : Job → Object
  of_pod_monitor : PodMonitorObject → Object

pub data Kind : Type 0 where
  pod_kind pvc_kind job_kind pod_monitor_kind rpc_kind : Kind

pub data Call : Type 0 where
  create_call : Object → Call
  get_call : Kind → NamespacedName → Call
  update_call : Object → Call
  delete_call : Object → Option DeletionPropagation → Call
  update_status_call : StarknetRpc → Call
  proxy_call : ProxyRequest → Call
  event_call : Event → Call

-- A call, the copy of the resource at that time, and the object that the server sent back.
pub record Entry : Type 0 where
  pub call : Call
  pub rpc : StarknetRpc
  pub sent : Option Object

-- client.Object: what the client needs to know of a type.
pub record Stored (T : Type 0) : Type 0 where
  pub kind : Kind
  pub wrap : T → Object
  pub meta : T → ObjectMeta

instance abbrev pub pod_stored : Stored Pod
pod_stored = record { kind = pod_kind; wrap = of_pod; meta = λ x. x.meta }

instance abbrev pub pvc_stored : Stored Pvc
pvc_stored = record { kind = pvc_kind; wrap = of_pvc; meta = λ x. x.meta }

instance abbrev pub job_stored : Stored Job
job_stored = record { kind = job_kind; wrap = of_job; meta = λ x. x.meta }

instance abbrev pub pod_monitor_stored : Stored PodMonitorObject
pod_monitor_stored = record { kind = pod_monitor_kind; wrap = of_pod_monitor; meta = λ x. x.meta }

pub record Pass (k : Kube) : Type 0 where
  pub world : k.World
  pub rpc : StarknetRpc
  pub calls : List Entry

-- `&pathfinderv1alpha1.StarknetRPC{}`: every field has Go's zero value.
abbrev pub blank_rpc : StarknetRpc
blank_rpc = record {
  api_version = "";
  kind = "";
  meta = record {
    name = "";
    namespace = "";
    uid = "";
    labels = none;
    annotations = none;
    owner_references = [];
  };
  spec = record {
    network = "";
    restore_archive = record {
      enable = none;
      file_name = "";
      checksum = "";
      rsync_config = none;
      restore_image = none;
      storage = record { size = ""; class = "" };
    };
    resources = record { limits = []; requests = []; claims = [] };
    image = none;
    storage = record { size = ""; class = "" };
    tolerations = [];
    layer1_rpc_secret = record { name = ""; key = ""; optional = none };
    pod_monitor = none;
  };
  status = record { conditions = [] };
}

-- A run starts with a blank resource and no calls.
abbrev pub begin : {k : Kube} → k.World → Pass k
begin w = record { world = w; rpc = blank_rpc; calls = [] }

-- A Go `error`: the two that the program declares, the server's, and a server's error wrapped with
-- the text of `ReconcilePodMonitor`.
pub data Error (F : Type 0) : Type 0 where
  next_loop : Error F
  terminate_loop : Error F
  api : F → Error F
  failed_to_delete : F → Error F

-- ctrl.Result; a time.Duration counts nanoseconds
pub record Result : Type 0 where
  pub requeue : Bool
  pub requeue_after : ℕ

abbrev pub no_result : Result
no_result = record { requeue = false; requeue_after = 0 }

abbrev pub after_seconds : ℕ → Result
after_seconds n = record { requeue = false; requeue_after = n * 10 ^ 9 }

abbrev pub at_once : Result
at_once = record { requeue = true; requeue_after = 0 }

-- The `(*ctrl.Result, error)` that a handler returns.
pub record Reply (F : Type 0) : Type 0 where
  pub result : Option Result
  pub error : Option (Error F)

module _ {F : Type 0} where
  -- return &ctrl.Result{}, nil
  abbrev pub done : Reply F
  done = record { result = some no_result; error = none }

  -- return nil, err
  abbrev pub failed_with : Error F → Reply F
  failed_with e = record { result = none; error = some e }

  -- return &result, ErrNextLoop
  abbrev pub again : Result → Reply F
  again r = record { result = some r; error = some next_loop }

  -- `if err != nil { return nil, err }`, and then the reply.
  abbrev pub or_fail : Option (Error F) → Reply F → Reply F
  or_fail none reply = reply
  or_fail (some e) reply = failed_with e

abbrev pub M : Kube → Type 0 → Type 0
M k A = Prog (Pass k) A

-- The object of a call that was answered with one.
abbrev pub object_of : {F T : Type 0} → (T → Object) → Answer F T → Option Object
object_of wrap (ok x) = some (wrap x)
object_of wrap (err _) = none

module _ {k : Kube} where
  abbrev logged : Call → Option Object → k.World → Pass k → Pass k
  logged c sent w p = record p {
    world = w;
    calls = record { call = c; rpc = p.rpc; sent = sent } ∷ p.calls;
  }

  abbrev pub current : M k StarknetRpc
  current p = (ret p.rpc, p)

  abbrev answered :
      {T : Type 0} → ⦃s : Stored T⦄ → Call → Answer k.Fault T × k.World → M k (Answer k.Fault T)
  answered ⦃s⦄ c (a, w) p = (ret a, logged c (object_of s.wrap a) w p)

  module _ {T : Type 0} ⦃s : Stored T⦄ (r : Resource k.World k.Fault T) where
    unfoldable pub create : T → M k (Answer k.Fault T)
    create x p = answered (create_call (s.wrap x)) (r.create x p.world) p

    unfoldable pub get : NamespacedName → M k (Answer k.Fault T)
    get n p = answered (get_call s.kind n) (r.get n p.world) p

    unfoldable pub update : T → M k (Answer k.Fault T)
    update x p = answered (update_call (s.wrap x)) (r.update x p.world) p

    unfoldable pub delete : T → Option DeletionPropagation → M k (Answer k.Fault (Unit {0}))
    delete x o p =
        let (a, w) = r.delete x o p.world in (ret a, logged (delete_call (s.wrap x) o) none w p)

  unfoldable pub get_rpc : NamespacedName → M k (Answer k.Fault StarknetRpc)
  get_rpc n p = let (a, w) = k.get_rpc n p.world in (ret a, logged (get_call rpc_kind n) none w p)

  -- The program's copy is replaced by the server's where the call succeeds.
  abbrev adopt : Answer k.Fault StarknetRpc → Pass k → Pass k
  adopt (ok r) p = record p { rpc = r }
  adopt (err f) p = p

  unfoldable pub update_status : M k (Answer k.Fault StarknetRpc)
  update_status p =
      let (a, w) = k.update_status p.rpc p.world in
      (ret a, adopt a (logged (update_status_call p.rpc) none w p))

  unfoldable pub proxy_get : ProxyRequest → M k (Answer k.Fault (Unit {0}))
  proxy_get q p = let (a, w) = k.proxy_get q p.world in (ret a, logged (proxy_call q) none w p)

  unfoldable pub record_event : Event → M k (Unit {0})
  record_event e p = (ret tt, logged (event_call e) none (k.record_event e p.world) p)

  -- The program's copy is changed in place.
  abbrev pub modify : (StarknetRpc → StarknetRpc) → M k (Unit {0})
  modify f p = (ret tt, record p { rpc = f p.rpc })
