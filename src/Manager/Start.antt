-- ===== src/Manager/Start.antt =====
-- The steps of a start of the process, in their order.
use starknet_operators.Prelude.{
  arith, ◌≡◌, refl, sym, ap, inr, ◌∙◌, String, Bool, true, false, not, ◌==◌, if◌then◌else◌, Option,
  none, some, List, [], ◌∷◌, ◌++◌,
}
use starknet_operators.Prog.{Outcome, ret, panic}
use starknet_operators.Manager.Slices.{Slice, contents}
use starknet_operators.Manager.Host.{Host, ManagerOptions, Builder}
use starknet_operators.Manager.Scheme.{init_scheme, build_controller}
use starknet_operators.Manager.Flags.{Flags, Settings, parse_flags}
use starknet_operators.Manager.Process.{
  Proc, P, Ending, next, exited, panicked, proceed, ◌>>=◌, ◌>>◌, Act, watch_cert, read_config,
  make_manager, make_client, build, add, health_check, ready_check, start_manager,
}
use starknet_operators.Manager.Tls.{http2_options, cert_options, tls_slices-separate}
use starknet_operators.Manager.Main.{
  joined, tls_slices, manager_options, new_manager, setup_with_manager, add_watcher, serve,
  run_manager, after_parse, after_init, main,
}

-- A watcher is made if a directory is given; the latest step first.
abbrev pub watched_acts : {W : Type 0} → String → String → String → List (Act W)
watched_acts dir name key =
    if dir == "" then [] else watch_cert (joined dir name) (joined dir key) ∷ []

abbrev pub added_acts : {W : Type 0} → Option W → List (Act W)
added_acts none = []
added_acts (some w) = add w ∷ []

abbrev pub is_given : {W : Type 0} → Option W → Bool
is_given none = false
is_given (some _) = true

-- The options that the two servers are meant to have.
unfoldable pub planned_options : {W : Type 0} → Flags → Option W → Option W → ManagerOptions W
unfolding manager_options contents
planned_options flags webhook metrics = record {
  metrics = record {
    bind_address = flags.metrics_addr;
    secure_serving = flags.secure_metrics;
    with_authorization = flags.secure_metrics;
    tls_opts = http2_options flags.enable_http2 ++ cert_options metrics;
  };
  webhook_tls_opts = http2_options flags.enable_http2 ++ cert_options webhook;
  health_probe_bind_address = flags.probe_addr;
  leader_election = flags.enable_leader_election;
  leader_election_id = "2d983c81.runelabs.xyz";
}

-- The steps of a whole start, the latest first.
unfoldable pub planned_acts : {W : Type 0} → Flags → Builder → Option W → Option W → List (Act W)
unfolding planned_options
planned_acts flags builder webhook metrics =
    start_manager
    ∷ ready_check
    ∷ health_check
    ∷ (added_acts webhook
        ++ (added_acts metrics
            ++ (build builder
                ∷ make_client
                ∷ make_manager (planned_options flags webhook metrics)
                ∷ read_config
                ∷ (watched_acts flags.metrics_cert_path flags.metrics_cert_name
                      flags.metrics_cert_key
                    ++ watched_acts flags.webhook_cert_path flags.webhook_cert_name
                        flags.webhook_cert_key))))

module _ {h : Host} where
  tls_slices-acts :
      (flags : Flags) (p q : Proc h) (wa wb : Option h.Watcher) (sa sb : Slice)
      → tls_slices {h = h} flags p ≡ (next ((wa, sa), (wb, sb)), q)
      → p.acts ≡ []
      → q.acts
        ≡ watched_acts flags.metrics_cert_path flags.metrics_cert_name flags.metrics_cert_key
          ++ watched_acts flags.webhook_cert_path flags.webhook_cert_name flags.webhook_cert_key
  unfolding tls_slices
  tls_slices-acts flags p q wa wb sa sb made none_yet = ground arith

  add_watcher-acts :
      (m : h.Manager) (w : Option h.Watcher) (p q : Proc h)
      → add_watcher {h = h} m w p ≡ (next tt, q)
      → q.acts ≡ added_acts w ++ p.acts
  unfolding add_watcher
  add_watcher-acts m w p q made = ground arith

  new_manager-acts :
      (flags : Flags) (o : h.Other) (s : h.Scheme) (a b : Slice) (p q : Proc h) (m : h.Manager)
      → new_manager {h = h} (flags, o) s a b p ≡ (next m, q)
      → (q.acts ≡ make_manager (manager_options {h = h} flags a b p) ∷ read_config ∷ p.acts)
        × (q.memory ≡ p.memory)
  unfolding new_manager manager_options contents
  new_manager-acts flags o s a b p q m made = ground arith

  setup-acts :
      (m : h.Manager) (s : h.Scheme) (p q : Proc h)
      → setup_with_manager {h = h} m s p ≡ (next tt, q)
      → q.acts ≡ build (build_controller h s) ∷ make_client ∷ p.acts
  unfolding setup_with_manager
  setup-acts m s p q made = ground arith

  serve-acts :
      (m : h.Manager) (p q : Proc h)
      → serve {h = h} m p ≡ (next tt, q)
      → q.acts ≡ start_manager ∷ ready_check ∷ health_check ∷ p.acts
  unfolding serve
  serve-acts m p q made = ground arith

  proceed-then :
      {A B G : Type 0} (r : Ending A × Proc h) (f : A → P h B) (q : Proc h) (b : B)
      → proceed r.0 f r.1 ≡ (next b, q)
      → ((a : A) (t : Proc h) → r ≡ (next a, t) → f a t ≡ (next b, q) → G)
      → G
  proceed-then (next a, t) f q b made goal = goal a t refl made
  proceed-then (exited n, t) f q b made goal = ground arith
  proceed-then (panicked, t) f q b made goal = ground arith

  -- What ends without an exit has first done its first part, and then the rest.
  bind-then :
      {A B G : Type 0} (m : P h A) (f : A → P h B) (p q : Proc h) (b : B)
      → (m >>= f) p ≡ (next b, q)
      → ((a : A) (r : Proc h) → m p ≡ (next a, r) → f a r ≡ (next b, q) → G)
      → G
  bind-then m f p q b = proceed-then (m p) f q b

  serving-acts :
      (m : h.Manager) (s : h.Scheme) (wa wb : Option h.Watcher) (p q : Proc h)
      → (setup_with_manager {h = h} m s >> (add_watcher m wb >> (add_watcher m wa >> serve m))) p
        ≡ (next tt, q)
      → q.acts
        ≡ start_manager
          ∷ ready_check
          ∷ health_check
          ∷ (added_acts wa
              ++ (added_acts wb ++ (build (build_controller h s) ∷ make_client ∷ p.acts)))
  serving-acts m s wa wb p q made =
      bind-then (setup_with_manager m s) _ p q tt made λ _ p1 e1 made1.
        bind-then (add_watcher m wb) _ p1 q tt made1 λ _ p2 e2 made2.
          bind-then (add_watcher m wa) _ p2 q tt made2 λ _ p3 e3 made3.
            serve-acts m p3 q made3
            ∙ ap (λ l. start_manager ∷ ready_check ∷ health_check ∷ l)
                (add_watcher-acts m wa p2 p3 e3
                  ∙ ap (λ l. added_acts wa ++ l)
                      (add_watcher-acts m wb p1 p2 e2
                        ∙ ap (λ l. added_acts wb ++ l) (setup-acts m s p p1 e1)))

  manager_options-planned :
      (flags : Flags) (p : Proc h) (wa wb : Option h.Watcher) (sa sb : Slice)
      → (contents p.memory sa ≡ http2_options flags.enable_http2 ++ cert_options wa)
        × (contents p.memory sb ≡ http2_options flags.enable_http2 ++ cert_options wb)
      → manager_options {h = h} flags sa sb p ≡ planned_options flags wa wb
  unfolding manager_options planned_options contents
  manager_options-planned flags p wa wb sa sb both = ground arith

  opening-acts :
      (flags : Flags) (o : h.Other) (s : h.Scheme) (p q r : Proc h) (wa wb : Option h.Watcher)
      (sa sb : Slice) (m : h.Manager)
      → p.acts ≡ []
      → p.memory ≡ []
      → h.grow 0 1 ≡ 1
      → tls_slices {h = h} flags p ≡ (next ((wa, sa), (wb, sb)), q)
      → new_manager {h = h} (flags, o) s sa sb q ≡ (next m, r)
      → r.acts
        ≡ make_manager (planned_options flags wa wb)
          ∷ read_config
          ∷ (watched_acts flags.metrics_cert_path flags.metrics_cert_name flags.metrics_cert_key
              ++ watched_acts flags.webhook_cert_path flags.webhook_cert_name
                  flags.webhook_cert_key)
  opening-acts flags o s p q r wa wb sa sb m none_yet empty exact e1 e2 =
      (new_manager-acts flags o s sa sb q r m e2).0
      ∙ ap (λ o. make_manager o ∷ read_config ∷ q.acts)
          (manager_options-planned flags q wa wb sa sb
            (tls_slices-separate flags p q wa wb sa sb empty e1 exact))
      ∙ ap (λ l. make_manager (planned_options flags wa wb) ∷ read_config ∷ l)
          (tls_slices-acts flags p q wa wb sa sb e1 none_yet)

  tls_slices-watched :
      (flags : Flags) (p q : Proc h) (wa wb : Option h.Watcher) (sa sb : Slice)
      → tls_slices {h = h} flags p ≡ (next ((wa, sa), (wb, sb)), q)
      → (is_given wa ≡ not (flags.webhook_cert_path == ""))
        × (is_given wb ≡ not (flags.metrics_cert_path == ""))
  unfolding tls_slices
  tls_slices-watched flags p q wa wb sa sb made = ground arith

  run_manager-acts :
      (flags : Flags) (o : h.Other) (s : h.Scheme) (p q : Proc h)
      → p.acts ≡ []
      → p.memory ≡ []
      → h.grow 0 1 ≡ 1
      → run_manager {h = h} (flags, o) s p ≡ (next tt, q)
      → (webhook metrics : Option h.Watcher) × (is_given webhook
          ≡ not (flags.webhook_cert_path == ""))
        × (is_given metrics ≡ not (flags.metrics_cert_path == ""))
        × (q.acts ≡ planned_acts flags (build_controller h s) webhook metrics)
  unfolding run_manager planned_acts planned_options manager_options
  run_manager-acts flags o s p q none_yet empty exact made =
      bind-then (tls_slices flags) _ p q tt made λ ((wa, sa), (wb, sb)) p1 e1 made1.
        bind-then (new_manager (flags, o) s sa sb) _ p1 q tt made1 λ m p2 e2 made2.
          let given = tls_slices-watched flags p p1 wa wb sa sb e1 in
          (
            wa,
            wb,
            given.0,
            given.1,
            serving-acts m s wa wb p2 q made2
                ∙ ap
                    (λ l.
                      start_manager
                      ∷ ready_check
                      ∷ health_check
                      ∷ (added_acts wa
                          ++ (added_acts wb ++ (build (build_controller h s) ∷ make_client ∷ l))))
                    (opening-acts flags o s p p1 p2 wa wb sa sb m none_yet empty exact e1 e2),
          )

  after_init-then :
      {G : Type 0} (args : List String) (o : Outcome h.Scheme) (settings : Settings h)
      (p q : Proc h)
      → parse_flags h args ≡ inr settings
      → after_init {h = h} args o p ≡ (next tt, q)
      → ((s : h.Scheme) → o ≡ ret s → run_manager {h = h} settings s p ≡ (next tt, q) → G)
      → G
  after_init-then args panic settings p q parsed made goal = ground arith
  after_init-then args (ret s) settings p q parsed made goal =
      goal s refl (ap (λ r. after_parse {h = h} r s p) (sym parsed) ∙ made)

  -- If the arguments are accepted, the process starts with no TLS options and no steps, the
  -- runtime gives a slice that grows from nothing to one element the capacity of one, and main
  -- returns, then the init functions had made a scheme, a certificate watcher was made for each
  -- directory that is given, and the steps were, in this order: to watch the webhook certificate
  -- and the metrics certificate, where their directories are given; to read the configuration; to
  -- make the manager with the options that the flags say; to make the client; to build the
  -- controller over the scheme; to add the watcher of the metrics and then that of the webhook,
  -- if any; to add the health check and the ready check; to start the manager.
  pub main-acts :
      (args : List String) (flags : Flags) (other : h.Other) (p q : Proc h)
      → p.acts ≡ []
      → p.memory ≡ []
      → h.grow 0 1 ≡ 1
      → parse_flags h args ≡ inr (flags, other)
      → main {h = h} args p ≡ (next tt, q)
      → (s : h.Scheme) × (webhook metrics : Option h.Watcher) × (init_scheme h ≡ ret s)
        × (is_given webhook ≡ not (flags.webhook_cert_path == ""))
        × (is_given metrics ≡ not (flags.metrics_cert_path == ""))
        × (q.acts ≡ planned_acts flags (build_controller h s) webhook metrics)
  unfolding main
  main-acts args flags other p q none_yet empty exact parsed made =
      after_init-then args (init_scheme h) (flags, other) p q parsed made
        λ s known made'.
          let (wa, wb, ga, gb, acts) =
            run_manager-acts flags other s p q none_yet empty exact made' in
          (s, wa, wb, known, ga, gb, acts)
