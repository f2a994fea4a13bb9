-- ===== src/Manager/Exits.antt =====
-- The ends of the process that are not a regular return of main().
use starknet_operators.Prelude.{
  arith, ◌≡◌, ◌⊎◌, inl, inr, ℕ, String, Bool, true, false, Option, List, [], ◌∷◌,
}
use starknet_operators.Prog.{Outcome, ret, panic}
use starknet_operators.Manager.Slices.{Slice}
use starknet_operators.Manager.Host.{Host}
use starknet_operators.Manager.Scheme.{init_scheme}
use starknet_operators.Manager.Flags.{Flags, Settings, parse_flags}
use starknet_operators.Manager.Process.{
  Proc, P, Ending, next, exited, panicked, proceed, ◌>>=◌, Act, make_client,
}
use starknet_operators.Manager.Main.{
  tls_slices, new_manager, setup_with_manager, add_watcher, serve, run_manager, after_parse,
  after_init, main,
}

-- Whether the latest step is the one that makes the client.
pub is_at_client : {W : Type 0} → List (Act W) → Bool
is_at_client [] = false
is_at_client (make_client ∷ l) = true
is_at_client (_ ∷ l) = false

-- An exit has code 1, and a panic comes from the client that cannot be made.
pub IsFailStop : {h : Host} {A : Type 0} → Ending A × Proc h → Type 0
IsFailStop (next a, p) = Unit {0}
IsFailStop (exited n, p) = n ≡ 1
IsFailStop (panicked, p) = is_at_client p.acts ≡ true

module _ (h : Host) where
  IsSafe : {A : Type 0} → P h A → Type 0
  unfolding IsFailStop
  IsSafe m = (p : Proc h) → IsFailStop {h = h} (m p)

  proceed-IsFailStop :
      {A B : Type 0} (r : Ending A × Proc h) (f : A → P h B)
      → IsFailStop {h = h} r
      → ((a : A) → IsSafe (f a))
      → IsFailStop {h = h} (proceed r.0 f r.1)
  unfolding IsFailStop IsSafe
  proceed-IsFailStop (next a, t) f first rest = rest a t
  proceed-IsFailStop (exited n, t) f first rest = first
  proceed-IsFailStop (panicked, t) f first rest = first

  bind-IsSafe :
      {A B : Type 0} (m : P h A) (f : A → P h B)
      → IsSafe m
      → ((a : A) → IsSafe (f a))
      → IsSafe (m >>= f)
  unfolding IsSafe
  bind-IsSafe m f first rest p = proceed-IsFailStop (m p) f (first p) rest

  tls_slices-IsSafe : (flags : Flags) → IsSafe (tls_slices {h = h} flags)
  unfolding IsSafe IsFailStop is_at_client tls_slices
  tls_slices-IsSafe flags p = ground arith

  new_manager-IsSafe :
      (flags : Flags) (o : h.Other) (s : h.Scheme) (a b : Slice)
      → IsSafe (new_manager {h = h} (flags, o) s a b)
  unfolding IsSafe IsFailStop is_at_client new_manager
  new_manager-IsSafe flags o s a b p = ground arith

  setup-IsSafe : (m : h.Manager) (s : h.Scheme) → IsSafe (setup_with_manager {h = h} m s)
  unfolding IsSafe IsFailStop is_at_client setup_with_manager
  setup-IsSafe m s p = ground arith

  add_watcher-IsSafe : (m : h.Manager) (w : Option h.Watcher) → IsSafe (add_watcher {h = h} m w)
  unfolding IsSafe IsFailStop is_at_client add_watcher
  add_watcher-IsSafe m w p = ground arith

  serve-IsSafe : (m : h.Manager) → IsSafe (serve {h = h} m)
  unfolding IsSafe IsFailStop is_at_client serve
  serve-IsSafe m p = ground arith

  run_manager-IsSafe :
      (flags : Flags) (o : h.Other) (s : h.Scheme) → IsSafe (run_manager {h = h} (flags, o) s)
  unfolding run_manager
  run_manager-IsSafe flags o s =
      bind-IsSafe (tls_slices flags) _ (tls_slices-IsSafe flags) λ ((wa, sa), (wb, sb)).
        bind-IsSafe (new_manager (flags, o) s sa sb) _ (new_manager-IsSafe flags o s sa sb) λ m.
          bind-IsSafe (setup_with_manager m s) _ (setup-IsSafe m s) λ _.
            bind-IsSafe (add_watcher m wb) _ (add_watcher-IsSafe m wb)
              λ _. bind-IsSafe (add_watcher m wa) _ (add_watcher-IsSafe m wa) λ _. serve-IsSafe m

  after_parse-IsSafe :
      (r : ℕ ⊎ Settings h) (settings : Settings h) (s : h.Scheme)
      → r ≡ inr settings
      → IsSafe (after_parse {h = h} r s)
  unfolding IsSafe
  after_parse-IsSafe (inl code) settings s parsed p = ground arith
  after_parse-IsSafe (inr (flags, other)) settings s parsed p = run_manager-IsSafe flags other s p

  after_init-IsSafe :
      (args : List String) (o : Outcome h.Scheme) (s : h.Scheme) (settings : Settings h)
      → o ≡ ret s
      → parse_flags h args ≡ inr settings
      → IsSafe (after_init {h = h} args o)
  unfolding IsSafe
  after_init-IsSafe args panic s settings known parsed p = ground arith
  after_init-IsSafe args (ret t) s settings known parsed p =
      after_parse-IsSafe (parse_flags h args) settings t parsed p

  -- If the init functions make a scheme and the arguments are accepted, then main returns, or
  -- exits with code 1, or panics right after the step that makes the client.
  pub main-IsFailStop :
      (args : List String) (settings : Settings h) (s : h.Scheme) (p : Proc h)
      → init_scheme h ≡ ret s
      → parse_flags h args ≡ inr settings
      → IsFailStop {h = h} (main {h = h} args p)
  unfolding main IsSafe
  main-IsFailStop args settings s p known parsed =
      after_init-IsSafe args (init_scheme h) s settings known parsed p
