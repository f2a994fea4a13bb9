-- ===== src/Manager/Calm.antt =====
-- A start of the process on a host where every call succeeds.
use starknet_operators.Prelude.{
  ◌≡◌, refl, String, Bool, true, false, ◌∷◌, ◌==◌, Option, none, some, List, inl, inr, Bool-cases,
}
use starknet_operators.Prog.{ret}
use starknet_operators.Kubernetes.Client.{Answer, ok, err}
use starknet_operators.Manager.Slices.{Slice}
use starknet_operators.Manager.Host.{Host, JoinedPath, ManagerOptions, Builder}
use starknet_operators.Manager.Scheme.{init_scheme}
use starknet_operators.Manager.Flags.{Flags, Settings, parse_flags}
use starknet_operators.Manager.Process.{
  Proc, P, Ending, next, exited, panicked, proceed, Act, read_config, make_manager, build, add,
  health_check, ready_check, start_manager, pure, call, or_exit, or_panic, ◌>>=◌,
}
use starknet_operators.Manager.Main.{
  append_option, base_options, watched_options, tls_slices, new_manager, setup_with_manager,
  add_watcher, serve, run_manager, main,
}

abbrev IsOk : {F A : Type 0} → Answer F A → Type 0
IsOk (ok _) = Unit
IsOk (err _) = ⊥

-- No call of the host fails.
pub record IsCalm (h : Host) : Type 0 where
  pub watcher : (a b : JoinedPath) (w : h.World) → IsOk (h.new_cert_watcher a b w).0
  pub config : (o : h.Other) (w : h.World) → IsOk (h.get_config o w).0
  pub manager :
      (c : h.Config) (s : h.Scheme) (o : ManagerOptions h.Watcher) (w : h.World)
      → IsOk (h.new_manager c s o w).0
  pub client : (m : h.Manager) (w : h.World) → IsOk (h.new_for_config m w).0
  pub complete : (m : h.Manager) (b : Builder) (w : h.World) → IsOk (h.complete m b w).0
  pub runnable : (m : h.Manager) (r : h.Watcher) (w : h.World) → IsOk (h.add_runnable m r w).0
  pub health : (m : h.Manager) (n : String) (w : h.World) → IsOk (h.add_healthz_check m n w).0
  pub readiness : (m : h.Manager) (n : String) (w : h.World) → IsOk (h.add_readyz_check m n w).0
  pub start : (m : h.Manager) (w : h.World) → IsOk (h.start m w).0

module _ (h : Host) where
  abbrev IsNext : {A : Type 0} → Ending A → Type 0
  IsNext (next _) = Unit
  IsNext (exited _) = ⊥
  IsNext panicked = ⊥

  -- The code goes on to what follows it.
  abbrev GoesOn : {A : Type 0} → P h A → Type 0
  GoesOn m = (p : Proc h) → IsNext (m p).0

  proceed-IsNext :
      {A B : Type 0} (r : Ending A) (t : Proc h) (f : A → P h B)
      → IsNext r
      → ((a : A) → GoesOn (f a))
      → IsNext (proceed {h = h} r f t).0
  proceed-IsNext (next a) t f first rest = rest a t
  proceed-IsNext (exited n) t f first rest = absurd first
  proceed-IsNext panicked t f first rest = absurd first

  bind-GoesOn :
      {A B : Type 0} (m : P h A) (f : A → P h B)
      → GoesOn m
      → ((a : A) → GoesOn (f a))
      → GoesOn (m >>= f)
  bind-GoesOn m f first rest p = proceed-IsNext (m p).0 (m p).1 f (first p) rest

  or_exit-GoesOn : {A : Type 0} (a : Answer h.Fault A) → IsOk a → GoesOn (or_exit {h = h} a)
  or_exit-GoesOn (ok x) fine p = tt
  or_exit-GoesOn (err f) fine p = absurd fine

  or_panic-GoesOn : {A : Type 0} (a : Answer h.Fault A) → IsOk a → GoesOn (or_panic {h = h} a)
  or_panic-GoesOn (ok x) fine p = tt
  or_panic-GoesOn (err f) fine p = absurd fine

  call-or_exit :
      {A : Type 0} (act : Act h.Watcher) (f : h.World → Answer h.Fault A × h.World)
      → ((w : h.World) → IsOk (f w).0)
      → GoesOn (call {h = h} act f >>= or_exit)
  call-or_exit act f fine p = or_exit-GoesOn (f p.world).0 (fine p.world) _

  call-then :
      {A B : Type 0} (act : Act h.Watcher) (f : h.World → Answer h.Fault A × h.World)
      (rest : A → P h B)
      → ((w : h.World) → IsOk (f w).0)
      → ((a : A) → GoesOn (rest a))
      → GoesOn (call {h = h} act f >>= λ a. or_exit a >>= rest)
  call-then act f rest fine go p =
      bind-GoesOn (or_exit (f p.world).0) rest (or_exit-GoesOn (f p.world).0 (fine p.world)) go
        (record p { world = (f p.world).1; acts = act ∷ p.acts })

  base_options-GoesOn : (enabled : Bool) → GoesOn (base_options {h = h} enabled)
  unfolding base_options append_option
  base_options-GoesOn true p = tt
  base_options-GoesOn false p = tt

  module _ (calm : IsCalm h) where
    watched_options-GoesOn :
        (path name key : String) (opts : Slice)
        → GoesOn (watched_options {h = h} path name key opts)
    unfolding watched_options append_option
    watched_options-GoesOn path name key opts = elim (Bool-cases (path == "")) [
      | inl e ↦ rw e (λ p. tt)
      | inr e ↦ rw e (call-then _ (h.new_cert_watcher _ _) _ (calm.watcher _ _) (λ w p. tt))
    ]

    tls_slices-GoesOn : (flags : Flags) → GoesOn (tls_slices {h = h} flags)
    unfolding tls_slices
    tls_slices-GoesOn flags =
        let webhook = flags.webhook_cert_path in
        let metrics = flags.metrics_cert_path in
        bind-GoesOn (base_options flags.enable_http2) _ (base_options-GoesOn flags.enable_http2)
          λ s.
            bind-GoesOn (watched_options webhook _ _ s)
              (λ a. watched_options metrics _ _ s >>= λ b. pure (a, b))
              (watched_options-GoesOn webhook flags.webhook_cert_name flags.webhook_cert_key s)
              λ a.
                bind-GoesOn (watched_options metrics _ _ s) (λ b. pure (a, b))
                  (watched_options-GoesOn metrics flags.metrics_cert_name flags.metrics_cert_key s)
                  λ b p. tt

    new_manager-GoesOn :
        (flags : Flags) (o : h.Other) (s : h.Scheme) (a b : Slice)
        → GoesOn (new_manager {h = h} (flags, o) s a b)
    unfolding new_manager
    new_manager-GoesOn flags o s a b =
        call-then read_config (h.get_config o) _ (calm.config o)
          λ c p. call-or_exit (make_manager _) (h.new_manager c s _) (calm.manager c s _) p

    setup-GoesOn : (m : h.Manager) (s : h.Scheme) → GoesOn (setup_with_manager {h = h} m s)
    unfolding setup_with_manager
    setup-GoesOn m s p =
        bind-GoesOn (or_panic (h.new_for_config m p.world).0) _
          (or_panic-GoesOn (h.new_for_config m p.world).0 (calm.client m p.world))
          (λ _. call-or_exit (build _) (h.complete m _) (calm.complete m _)) _

    add_watcher-GoesOn : (m : h.Manager) (w : Option h.Watcher) → GoesOn (add_watcher {h = h} m w)
    unfolding add_watcher
    add_watcher-GoesOn m none p = tt
    add_watcher-GoesOn m (some w) p =
        call-or_exit (add w) (h.add_runnable m w) (calm.runnable m w) p

    serve-GoesOn : (m : h.Manager) → GoesOn (serve {h = h} m)
    unfolding serve
    serve-GoesOn m = call-then health_check (h.add_healthz_check m _) _ (calm.health m _) λ _.
        call-then ready_check (h.add_readyz_check m _) _ (calm.readiness m _)
          λ _. call-or_exit start_manager (h.start m) (calm.start m)

    run_manager-GoesOn :
        (flags : Flags) (o : h.Other) (s : h.Scheme) → GoesOn (run_manager {h = h} (flags, o) s)
    unfolding run_manager
    run_manager-GoesOn flags o s =
        bind-GoesOn (tls_slices flags) _ (tls_slices-GoesOn flags) λ ((wa, sa), (wb, sb)).
          bind-GoesOn (new_manager (flags, o) s sa sb) _ (new_manager-GoesOn flags o s sa sb) λ m.
            bind-GoesOn (setup_with_manager m s) _ (setup-GoesOn m s) λ _.
              bind-GoesOn (add_watcher m wb) _ (add_watcher-GoesOn m wb)
                λ _. bind-GoesOn (add_watcher m wa) _ (add_watcher-GoesOn m wa) λ _. serve-GoesOn m

    next-tt : (r : Ending (Unit {0})) → IsNext r → r ≡ next tt
    next-tt (next _) fine = refl
    next-tt (exited n) fine = absurd fine
    next-tt panicked fine = absurd fine

    -- If no call of the host fails, the init functions make a scheme, and the arguments are
    -- accepted, then main returns: it neither exits nor panics, whatever the flags say.
    pub main-returns :
        (args : List String) (settings : Settings h) (s : h.Scheme) (p : Proc h)
        → init_scheme h ≡ ret s
        → parse_flags h args ≡ inr settings
        → (main {h = h} args p).0 ≡ next tt
    unfolding main
    main-returns args (flags, o) s p known parsed = rw known (
        rw parsed (next-tt (run_manager {h = h} (flags, o) s p).0 (run_manager-GoesOn flags o s p)))
