-- ===== src/Tests/Server.antt =====
-- A server that keeps its objects in lists and refuses what is not valid.
use starknet_operators.Prelude.{
  arith, String, Bool, true, false, ◌&&◌, ◌≡◌, refl, Option, none, some, List, [], ◌∷◌, ◌==◌,
  eq_iff, if◌then◌else◌, Bool-cases, Option-cases, inl, inr,
}
use starknet_operators.Kubernetes.Meta.{
  ObjectMeta, NamespacedName, object_key, Condition, background,
}
use starknet_operators.Kubernetes.Core.{Pod, Pvc, Job}
use starknet_operators.Kubernetes.Monitoring.{PodMonitorObject}
use starknet_operators.Kubernetes.Client.{
  Kube, Resource, Answer, ok, err, ProxyRequest, Event, HasConditions, KeepsStatus, is_true,
}
use starknet_operators.V1alpha1.{StarknetRpc}
use starknet_operators.Phases.Progress.{IsGone}
use starknet_operators.Total.{OkIs, HasPort, NamesPort, Sends, first_has_port, first_names_port}

pub data Fault : Type 0 where
  not_found already_exists invalid unavailable : Fault

abbrev is_not_found : Fault → Bool
is_not_found Fault.not_found = true
is_not_found _ = false

abbrev is_already_exists : Fault → Bool
is_already_exists Fault.already_exists = true
is_already_exists _ = false

abbrev is_unavailable : Fault → Bool
is_unavailable Fault.unavailable = true
is_unavailable _ = false

-- `up` tells whether the pods answer a probe; `probes` and `events` are kept, the latest first.
pub record World : Type 0 where
  pub pods : List Pod
  pub pvcs : List Pvc
  pub jobs : List Job
  pub pod_monitors : List PodMonitorObject
  pub rpcs : List StarknetRpc
  pub up : Bool
  pub probes : List ProxyRequest
  pub events : List Event

abbrev pub has_key : ObjectMeta → NamespacedName → Bool
has_key m n = m.name == n.name && m.namespace == n.namespace

module _ {T : Type 0} (meta : T → ObjectMeta) where
  abbrev pub find : NamespacedName → List T → Option T
  find n [] = none
  find n (x ∷ xs) = if has_key (meta x) n then some x else find n xs

  abbrev pub replace : T → List T → List T
  replace x [] = []
  replace x (y ∷ ys) = if has_key (meta y) (object_key (meta x)) then x ∷ ys else y ∷ replace x ys

  abbrev pub remove : NamespacedName → List T → List T
  remove n [] = []
  remove n (x ∷ xs) = if has_key (meta x) n then xs else x ∷ remove n xs

module _ {T : Type 0} (valid : T → Bool) where
  abbrev check : T → Answer Fault T
  check x = if valid x then ok x else err Fault.invalid

  abbrev found : Option T → Answer Fault T
  found none = err Fault.not_found
  found (some x) = check x

  check-OkIs : (x : T) → OkIs (λ y. valid y ≡ true) (check x)
  check-OkIs x = elim (Bool-cases (valid x)) [ inl e ↦ rw e e | inr e ↦ rw e tt ]

  found-OkIs : (o : Option T) → OkIs (λ y. valid y ≡ true) (found o)
  found-OkIs none = tt
  found-OkIs (some x) = check-OkIs x

module _ {T : Type 0} (meta : T → ObjectMeta) (valid : T → Bool) (all : World → List T)
    (set : List T → World → World) where
  abbrev create_in : T → Option T → World → Answer Fault T × World
  create_in x none w = (check valid x, if valid x then set (x ∷ all w) w else w)
  create_in x (some _) w = (err Fault.already_exists, w)

  abbrev update_in : T → Option T → World → Answer Fault T × World
  update_in x none w = (err Fault.not_found, w)
  update_in x (some _) w = (check valid x, if valid x then set (replace meta x (all w)) w else w)

  abbrev delete_in : T → Option T → World → Answer Fault (Unit {0}) × World
  delete_in x none w = (err Fault.not_found, w)
  delete_in x (some _) w = (ok tt, set (remove meta (object_key (meta x)) (all w)) w)

  abbrev kept : Resource World Fault T
  kept = record {
    create = λ x w. create_in x (find meta (object_key (meta x)) (all w)) w;
    get = λ n w. (found valid (find meta n (all w)), w);
    update = λ x w. update_in x (find meta (object_key (meta x)) (all w)) w;
    delete = λ x o w. delete_in x (find meta (object_key (meta x)) (all w)) w;
  }

  create_in-OkIs :
      (x : T) (o : Option T) (w : World) → OkIs (λ y. valid y ≡ true) (create_in x o w).0
  create_in-OkIs x none w = check-OkIs valid x
  create_in-OkIs x (some _) w = tt

  update_in-OkIs :
      (x : T) (o : Option T) (w : World) → OkIs (λ y. valid y ≡ true) (update_in x o w).0
  update_in-OkIs x none w = tt
  update_in-OkIs x (some _) w = check-OkIs valid x

  kept-Sends : Sends (λ y. valid y ≡ true) kept
  kept-Sends = record {
    create = λ x w. create_in-OkIs x (find meta (object_key (meta x)) (all w)) w;
    get = λ n w. found-OkIs valid (find meta n (all w));
    update = λ x w. update_in-OkIs x (find meta (object_key (meta x)) (all w)) w;
  }

-- meta.SetStatusCondition and meta.IsStatusConditionTrue
abbrev set_condition : List Condition → Condition → List Condition
set_condition [] c = c ∷ []
set_condition (d ∷ ds) c = if d.type == c.type then c ∷ ds else d ∷ set_condition ds c

abbrev condition_is_true : List Condition → String → Bool
condition_is_true [] t = false
condition_is_true (d ∷ ds) t = if d.type == t then is_true d.status else condition_is_true ds t

abbrev answer_status : StarknetRpc → Option StarknetRpc → World → Answer Fault StarknetRpc × World
answer_status r none w = (err Fault.not_found, w)
answer_status r (some _) w = (ok r, record w { rpcs = replace (λ x. x.meta) r w.rpcs })

abbrev pub server : Kube
server = record {
  World = World;
  Fault = Fault;
  is_not_found = is_not_found;
  is_already_exists = is_already_exists;
  is_bad_request = λ f. false;
  is_service_unavailable = is_unavailable;
  pods =
      kept (λ x. x.meta) (λ (x : Pod). first_has_port x.spec.containers) (λ w. w.pods)
        (λ xs w. record w { pods = xs });
  pvcs = kept (λ x. x.meta) (λ x. true) (λ w. w.pvcs) (λ xs w. record w { pvcs = xs });
  jobs = kept (λ x. x.meta) (λ x. true) (λ w. w.jobs) (λ xs w. record w { jobs = xs });
  pod_monitors =
      kept (λ x. x.meta) (λ (x : PodMonitorObject). first_names_port x.spec.pod_metrics_endpoints)
        (λ w. w.pod_monitors) (λ xs w. record w { pod_monitors = xs });
  get_rpc = λ n w. (found (λ x. true) (find (λ x. x.meta) n w.rpcs), w);
  update_status = λ r w. answer_status r (find (λ x. x.meta) (object_key r.meta) w.rpcs) w;
  proxy_get =
      λ q w. (if w.up then ok tt else err Fault.unavailable, record w { probes = q ∷ w.probes });
  record_event = λ e w. record w { events = e ∷ w.events };
  set_status_condition = set_condition;
  is_status_condition_true = condition_is_true;
}

-- The same, but PodMonitors without a port name are accepted.
abbrev pub lax_server : Kube
lax_server = record server {
  pod_monitors =
      kept (λ x. x.meta) (λ (x : PodMonitorObject). true) (λ w. w.pod_monitors)
        (λ xs w. record w { pod_monitors = xs });
}

is_true-set :
    (cs : List Condition) (c : Condition) (t : String)
    → condition_is_true (set_condition cs c) t
      ≡ (if c.type == t then is_true c.status else condition_is_true cs t)
is_true-set [] c t = refl
is_true-set (d ∷ ds) c t =
    ground (arith, eq_iff d.type c.type, eq_iff c.type t, eq_iff d.type t, is_true-set ds c t)

pub conditions : HasConditions server
conditions = record { is_true-set = is_true-set }

pub status : KeepsStatus server
status = record {
  echo = λ r w. elim (Option-cases (find (λ x. x.meta) (object_key r.meta) w.rpcs)) [
    | inl e ↦ rw e tt
    | inr (x, e) ↦ rw e (refl, refl)
  ];
}

pub pods-Sends : Sends HasPort server.pods
pods-Sends =
    kept-Sends (λ x. x.meta) (λ (x : Pod). first_has_port x.spec.containers) (λ w. w.pods)
      (λ xs w. record w { pods = xs })

pub pod_monitors-Sends : Sends NamesPort server.pod_monitors
pod_monitors-Sends =
    kept-Sends (λ x. x.meta)
      (λ (x : PodMonitorObject). first_names_port x.spec.pod_metrics_endpoints)
      (λ w. w.pod_monitors) (λ xs w. record w { pod_monitors = xs })

pub jobs-IsGone : (x : Job) (w : World) → IsGone server (server.jobs.delete x (some background) w).0
jobs-IsGone x w = ground arith

pub pvcs-IsGone : (x : Pvc) (w : World) → IsGone server (server.pvcs.delete x none w).0
pvcs-IsGone x w = ground arith
