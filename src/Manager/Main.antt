-- ===== src/Manager/Main.antt =====
-- main() of cmd/main.go.
use starknet_operators.Prelude.{
  ℕ, ◌⊎◌, inl, inr, List, String, Bool, not, ◌==◌, Option, none, some, if◌then◌else◌,
}
use starknet_operators.Prog.{Outcome, ret, panic}
use starknet_operators.Manager.Slices.{Slice, nil_slice, contents, append}
use starknet_operators.Manager.Host.{
  Host, TlsOption, disable_http2, get_certificate, JoinedPath, ManagerOptions,
}
use starknet_operators.Manager.Scheme.{init_scheme, build_controller}
use starknet_operators.Manager.Flags.{Flags, Settings, parse_flags}
use starknet_operators.Manager.Process.{
  Proc, P, panicked, watch_cert, read_config, make_manager, make_client, build, add, health_check,
  ready_check, start_manager, pure, exit, call, or_exit, or_panic, ◌>>=◌, ◌>>◌,
}

abbrev pub joined : String → String → JoinedPath
joined dir name = record { dir = dir; name = name }

module _ {h : Host} where
  -- tlsOpts = append(tlsOpts, …)
  unfoldable pub append_option : Slice → TlsOption h.Watcher → P h Slice
  unfolding append
  append_option s x p =
      let (s', m) = append h.grow s x p.memory in pure s' (record p { memory = m })

  unfoldable pub base_options : Bool → P h Slice
  unfolding append_option
  base_options enable_http2 =
      if not enable_http2 then append_option nil_slice disable_http2 else pure nil_slice

  -- A certificate watcher and the TLS options with it, if a directory is given.
  unfoldable pub watched_options : String → String → String → Slice → P h (Option h.Watcher × Slice)
  unfolding append_option
  watched_options path name key opts = if path == "" then pure (none, opts) else do
    answer ←
        call (watch_cert (joined path name) (joined path key))
          (h.new_cert_watcher (joined path name) (joined path key))
    watcher ← or_exit answer
    opts' ← append_option opts (get_certificate watcher)
    pure (some watcher, opts')

  -- The watchers and the TLS options of the webhook server and of the metrics server, in this order.
  unfoldable pub tls_slices : Flags → P h ((Option h.Watcher × Slice) × (Option h.Watcher × Slice))
  unfolding base_options watched_options
  tls_slices flags = do
    opts ← base_options flags.enable_http2
    webhook ←
        watched_options flags.webhook_cert_path flags.webhook_cert_name flags.webhook_cert_key opts
    metrics ←
        watched_options flags.metrics_cert_path flags.metrics_cert_name flags.metrics_cert_key opts
    pure (webhook, metrics)

  -- The options of the manager; the slices are read when the manager is made.
  unfoldable pub manager_options : Flags → Slice → Slice → Proc h → ManagerOptions h.Watcher
  unfolding contents
  manager_options flags webhook metrics p = record {
    metrics = record {
      bind_address = flags.metrics_addr;
      secure_serving = flags.secure_metrics;
      with_authorization = flags.secure_metrics;
      tls_opts = contents p.memory metrics;
    };
    webhook_tls_opts = contents p.memory webhook;
    health_probe_bind_address = flags.probe_addr;
    leader_election = flags.enable_leader_election;
    leader_election_id = "2d983c81.runelabs.xyz";
  }

  unfoldable pub new_manager : Settings h → h.Scheme → Slice → Slice → P h h.Manager
  unfolding manager_options
  new_manager (flags, other) scheme webhook metrics = do
    answer ← call read_config (h.get_config other)
    config ← or_exit answer
    made ← λ p.
        let options = manager_options flags webhook metrics p in
        call (make_manager options) (h.new_manager config scheme options) p
    or_exit made

  unfoldable pub add_watcher : h.Manager → Option h.Watcher → P h (Unit {0})
  add_watcher manager none = pure tt
  add_watcher manager (some watcher) = do
    answer ← call (add watcher) (h.add_runnable manager watcher)
    or_exit answer

  -- SetupWithManager, with the reconciler's client.
  unfoldable pub setup_with_manager : h.Manager → h.Scheme → P h (Unit {0})
  unfolding build_controller
  setup_with_manager manager scheme = do
    client ← call make_client (h.new_for_config manager)
    or_panic client
    let builder = build_controller h scheme
    answer ← call (build builder) (h.complete manager builder)
    or_exit answer

  unfoldable pub serve : h.Manager → P h (Unit {0})
  serve manager = do
    health ← call health_check (h.add_healthz_check manager "healthz")
    or_exit health
    readiness ← call ready_check (h.add_readyz_check manager "readyz")
    or_exit readiness
    answer ← call start_manager (h.start manager)
    or_exit answer

  unfoldable pub run_manager : Settings h → h.Scheme → P h (Unit {0})
  unfolding tls_slices new_manager setup_with_manager add_watcher serve
  run_manager (flags, other) scheme = do
    ((webhook_watcher, webhook), (metrics_watcher, metrics)) ← tls_slices flags
    manager ← new_manager (flags, other) scheme webhook metrics
    setup_with_manager manager scheme
    add_watcher manager metrics_watcher
    add_watcher manager webhook_watcher
    serve manager

  abbrev pub after_parse : ℕ ⊎ Settings h → h.Scheme → P h (Unit {0})
  after_parse (inl code) scheme = exit code
  after_parse (inr settings) scheme = run_manager settings scheme

  abbrev pub after_init : List String → Outcome h.Scheme → P h (Unit {0})
  after_init args panic = λ p. (panicked, p)
  after_init args (ret scheme) = after_parse (parse_flags h args) scheme

  -- The init functions run before main.
  unfoldable pub main : List String → P h (Unit {0})
  unfolding run_manager init_scheme
  main args = after_init args (init_scheme h)
