-- ===== src/Manager/Host.antt =====
-- What the process uses of controller-runtime, client-go and the Go runtime.
use starknet_operators.Prelude.{ℕ, String, Bool, Option, List}
use starknet_operators.Kubernetes.Client.{Answer}

pub record GroupVersion : Type 0 where
  pub group : String
  pub version : String

pub record GroupVersionKind : Type 0 where
  pub group_version : GroupVersion
  pub kind : String

-- A function on a tls.Config: HTTP/2 is switched off, or the certificate comes from a watcher.
pub data TlsOption (W : Type 0) : Type 0 where
  disable_http2 : TlsOption W
  get_certificate : W → TlsOption W

-- filepath.Join(dir, name), by its parts
pub record JoinedPath : Type 0 where
  pub dir : String
  pub name : String

-- metricsserver.Options
pub record MetricsOptions (W : Type 0) : Type 0 where
  pub bind_address : String
  pub secure_serving : Bool
  pub with_authorization : Bool
  pub tls_opts : List (TlsOption W)

-- ctrl.Options; the webhook server has its TLS options only
pub record ManagerOptions (W : Type 0) : Type 0 where
  pub metrics : MetricsOptions W
  pub webhook_tls_opts : List (TlsOption W)
  pub health_probe_bind_address : String
  pub leader_election : Bool
  pub leader_election_id : String

-- The object whose controller is built, what it owns, and its name.
pub record Builder : Type 0 where
  pub for_object : String
  pub owns : List String
  pub name : String

-- A call that changes the scheme may fail half-way, so the scheme comes back in any case.
pub record Host : Type 1 where
  pub World : Type 0
  pub Fault : Type 0
  pub Scheme : Type 0
  pub Config : Type 0
  pub Manager : Type 0
  pub Watcher : Type 0
  -- the values of the flags that libraries register: those of zap, and kubeconfig
  pub Other : Type 0
  pub other_default : Other
  -- for a flag that a library registers: whether its value is a bool
  pub other_flag : String → Option Bool
  pub set_other : String → String → Other → Option Other
  -- the runtime's choice of a capacity, from the old one and the length that is needed
  pub grow : ℕ → ℕ → ℕ
  pub new_scheme : Scheme
  pub add_client_go : Scheme → Option Fault × Scheme
  pub add_known_types : GroupVersion → List String → Scheme → Option Fault × Scheme
  pub add_monitoring : Scheme → Option Fault × Scheme
  pub recognizes : Scheme → GroupVersionKind → Bool
  pub new_cert_watcher : JoinedPath → JoinedPath → World → Answer Fault Watcher × World
  pub get_config : Other → World → Answer Fault Config × World
  pub new_manager : Config → Scheme → ManagerOptions Watcher → World → Answer Fault Manager × World
  pub new_for_config : Manager → World → Answer Fault (Unit {0}) × World
  pub complete : Manager → Builder → World → Answer Fault (Unit {0}) × World
  pub add_runnable : Manager → Watcher → World → Answer Fault (Unit {0}) × World
  pub add_healthz_check : Manager → String → World → Answer Fault (Unit {0}) × World
  pub add_readyz_check : Manager → String → World → Answer Fault (Unit {0}) × World
  pub start : Manager → World → Answer Fault (Unit {0}) × World
