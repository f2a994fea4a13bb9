-- ===== src/Tests/Startup.antt =====
-- The process on a host where every call succeeds, and on one where the start fails.
use starknet_operators.Prelude.{
  ◌≡◌, refl, inr, ℕ, suc, String, Bool, true, false, not, ◌==◌, if◌then◌else◌, Option, none, some,
  List, [], ◌∷◌, ◌++◌,
}
use starknet_operators.Prog.{ret}
use starknet_operators.Kubernetes.Client.{ok, err}
use starknet_operators.Manager.Slices.{Slice, contents}
use starknet_operators.Manager.Host.{Host, JoinedPath}
use starknet_operators.Manager.Scheme.{init_scheme, build_controller}
use starknet_operators.Manager.Flags.{Flags, default_flags, formal, parse_flags}
use starknet_operators.Manager.FlagSet.{parse}
use starknet_operators.Manager.Arguments.{to_args, parse-to_args}
use starknet_operators.Manager.Process.{Proc, Ending, next}
use starknet_operators.Manager.Main.{tls_slices, main}
use starknet_operators.Manager.Tls.{http2_options, cert_options, tls_slices-separate}
use starknet_operators.Manager.Start.{planned_acts, is_given, main-acts}
use starknet_operators.Manager.Exits.{IsFailStop, main-IsFailStop}
use starknet_operators.Manager.Calm.{IsCalm, main-returns}

abbrev knows : List String → String → Bool
knows [] kind = false
knows (k ∷ ks) kind = if k == kind then true else knows ks kind

-- The world counts the calls; a scheme is the list of its kinds; a watcher is the path of its certificate.
abbrev host : Host
host = record {
  World = ℕ;
  Fault = Unit {0};
  Scheme = List String;
  Config = Unit {0};
  Manager = Unit {0};
  Watcher = JoinedPath;
  Other = String;
  other_default = "";
  other_flag = λ name. if name == "kubeconfig" then some false else none;
  set_other = λ name value o. some value;
  grow = λ cap needed. needed;
  new_scheme = [];
  add_client_go = λ s. (none, "Pod" ∷ s);
  add_known_types = λ gv kinds s. (none, kinds ++ s);
  add_monitoring = λ s. (none, "PodMonitor" ∷ s);
  recognizes = λ s gvk. knows s gvk.kind;
  new_cert_watcher = λ cert key w. (ok cert, suc w);
  get_config = λ other w. (ok tt, suc w);
  new_manager = λ config s options w. (ok tt, suc w);
  new_for_config = λ m w. (ok tt, suc w);
  complete = λ m b w. (ok tt, suc w);
  add_runnable = λ m r w. (ok tt, suc w);
  add_healthz_check = λ m name w. (ok tt, suc w);
  add_readyz_check = λ m name w. (ok tt, suc w);
  start = λ m w. (ok tt, suc w);
}

abbrev broken_host : Host
broken_host = record host { start = λ m w. (err tt, suc w) }

abbrev flags : Flags
flags = record default_flags { webhook_cert_path = "/webhook"; metrics_cert_path = "/metrics" }

-- The first two set the flags; the value of the third is the next argument.
abbrev args : List String
args =
    "--webhook-cert-path=/webhook" ∷ "-metrics-cert-path=/metrics" ∷ "--kubeconfig" ∷ "/config"
    ∷ "rest" ∷ "--unknown" ∷ []

abbrev fresh : {h : Host} → h.World → Proc h
fresh w = record { world = w; memory = []; acts = [] }

unfoldable started : Ending (Unit {0}) × Proc host
unfolding main
started = main {h = host} args (fresh {h = host} 0)

unfoldable both_slices :
    Ending ((Option JoinedPath × Slice) × (Option JoinedPath × Slice)) × Proc host
unfolding tls_slices
both_slices = tls_slices {h = host} flags (fresh {h = host} 0)

started-calls : started.1.world ≡ 11
unfolding started parse_flags
started-calls = refl

abbrev kinds : List String
kinds = "PodMonitor" ∷ "StarknetRPC" ∷ "StarknetRPCList" ∷ "Pod" ∷ []

abbrev webhook_slice : Slice
webhook_slice = record { array = 1; len = 2; cap = 2 }

abbrev metrics_slice : Slice
metrics_slice = record { array = 2; len = 2; cap = 2 }

abbrev webhook_cert : JoinedPath
webhook_cert = record { dir = "/webhook"; name = "tls.crt" }

abbrev metrics_cert : JoinedPath
metrics_cert = record { dir = "/metrics"; name = "tls.crt" }

tls_slices-separate_example :
    (contents both_slices.1.memory webhook_slice
      ≡ http2_options false ++ cert_options (some webhook_cert))
    × (contents both_slices.1.memory metrics_slice
        ≡ http2_options false ++ cert_options (some metrics_cert))
unfolding both_slices tls_slices
tls_slices-separate_example =
    tls_slices-separate {h = host} flags (fresh {h = host} 0) both_slices.1 (some webhook_cert)
      (some metrics_cert) webhook_slice metrics_slice refl refl refl

main-acts_example :
    (s : List String) × (webhook metrics : Option JoinedPath) × (init_scheme host ≡ ret s)
    × (is_given webhook ≡ not (flags.webhook_cert_path == ""))
    × (is_given metrics ≡ not (flags.metrics_cert_path == ""))
    × (started.1.acts ≡ planned_acts flags (build_controller host s) webhook metrics)
unfolding started main parse_flags
main-acts_example =
    main-acts {h = host} args flags "/config" (fresh {h = host} 0) started.1 refl refl refl refl
      refl

main-IsFailStop_example :
    IsFailStop {h = broken_host} (main {h = broken_host} args (fresh {h = broken_host} 0))
unfolding init_scheme parse_flags
main-IsFailStop_example =
    main-IsFailStop broken_host args (flags, "/config") kinds (fresh {h = broken_host} 0) refl refl

host-IsCalm : IsCalm host
host-IsCalm = record {
  watcher = λ a b w. tt;
  config = λ o w. tt;
  manager = λ c s o w. tt;
  client = λ m w. tt;
  complete = λ m b w. tt;
  runnable = λ m r w. tt;
  health = λ m n w. tt;
  readiness = λ m n w. tt;
  start = λ m w. tt;
}

main-returns_example : (main {h = host} args (fresh {h = host} 0)).0 ≡ next tt
unfolding init_scheme parse_flags
main-returns_example =
    main-returns host host-IsCalm args (flags, "/config") kinds (fresh {h = host} 0) refl refl

args-parsed : parse_flags host args ≡ inr (flags, "/config")
unfolding parse_flags
args-parsed = refl

parse-to_args_example : parse (formal host) (to_args flags) (default_flags, "") ≡ inr (flags, "")
parse-to_args_example = parse-to_args host flags default_flags ""
