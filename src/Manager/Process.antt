-- ===== src/Manager/Process.antt =====
-- Code that may end the process: by os.Exit, or by a panic. What it did before stays done.
use starknet_operators.Prelude.{ℕ, List, ◌∷◌}
use starknet_operators.Kubernetes.Client.{Answer, ok, err}
use starknet_operators.Manager.Host.{Host, ManagerOptions, JoinedPath, Builder, TlsOption}
use starknet_operators.Manager.Slices.{Memory}

pub data Ending (A : Type 0) : Type 0 where
  next : A → Ending A
  exited : ℕ → Ending A
  panicked : Ending A

-- The steps of the process that others can see.
pub data Act (W : Type 0) : Type 0 where
  watch_cert : JoinedPath → JoinedPath → Act W
  read_config : Act W
  make_manager : ManagerOptions W → Act W
  make_client : Act W
  build : Builder → Act W
  add : W → Act W
  health_check ready_check : Act W
  start_manager : Act W

-- The world, the arrays of TLS options, and the steps, the latest first.
pub record Proc (h : Host) : Type 0 where
  pub world : h.World
  pub memory : Memory (TlsOption h.Watcher)
  pub acts : List (Act h.Watcher)

abbrev pub P : Host → Type 0 → Type 0
P h A = Proc h → Ending A × Proc h

module _ {h : Host} where
  abbrev pub pure : {A : Type 0} → A → P h A
  pure a p = (next a, p)

  abbrev pub exit : {A : Type 0} → ℕ → P h A
  exit code p = (exited code, p)

  abbrev pub proceed : {A B : Type 0} → Ending A → (A → P h B) → Proc h → Ending B × Proc h
  proceed (next a) f p = f a p
  proceed (exited code) f p = (exited code, p)
  proceed panicked f p = (panicked, p)

  infixl 10 ◌>>=◌ ◌>>◌
  abbrev pub ◌>>=◌ : {A B : Type 0} → P h A → (A → P h B) → P h B
  ◌>>=◌ m f p = proceed (m p).0 f (m p).1

  abbrev pub ◌>>◌ : {A B : Type 0} → P h A → P h B → P h B
  m >> n = m >>= λ _. n

  -- A call of the host is a step.
  abbrev pub call :
      {A : Type 0} → Act h.Watcher → (h.World → Answer h.Fault A × h.World) → P h (Answer h.Fault A)
  call a f p =
      let (answer, w) = f p.world in (next answer, record p { world = w; acts = a ∷ p.acts })

  -- `if err != nil { …; os.Exit(1) }`
  abbrev pub or_exit : {A : Type 0} → Answer h.Fault A → P h A
  or_exit (ok a) = pure a
  or_exit (err _) = exit 1

  -- A function called …OrDie that panics.
  abbrev pub or_panic : {A : Type 0} → Answer h.Fault A → P h A
  or_panic (ok a) = pure a
  or_panic (err _) = λ p. (panicked, p)
