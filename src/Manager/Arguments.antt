-- ===== src/Manager/Arguments.antt =====
-- The arguments that spell the flags of the process out, and what the process reads from them.
use starknet_operators.Prelude.{
  ◌≡◌, refl, ap, String, ◌<>◌, Bool, true, false, some, List, [], ◌∷◌, inr,
}
use starknet_operators.Manager.Host.{Host}
use starknet_operators.Manager.FlagSet.{
  Setting, Reading, between, parse_bool, read_all, outcome, parse, is_name, step-printed,
  read_all-nil, read_all-cons,
}
use starknet_operators.Manager.Flags.{Flags, Settings, own_flags, bool_var, formal}

abbrev printed : String → String → String
printed name value = "--" <> (name <> ("=" <> value))

abbrev show_bool : Bool → String
show_bool true = "true"
show_bool false = "false"

-- An argument for each flag.
unfoldable pub to_args : Flags → List String
to_args f =
    printed "metrics-bind-address" f.metrics_addr
    ∷ printed "health-probe-bind-address" f.probe_addr
    ∷ printed "leader-elect" (show_bool f.enable_leader_election)
    ∷ printed "metrics-secure" (show_bool f.secure_metrics)
    ∷ printed "webhook-cert-path" f.webhook_cert_path
    ∷ printed "webhook-cert-name" f.webhook_cert_name
    ∷ printed "webhook-cert-key" f.webhook_cert_key
    ∷ printed "metrics-cert-path" f.metrics_cert_path
    ∷ printed "metrics-cert-name" f.metrics_cert_name
    ∷ printed "metrics-cert-key" f.metrics_cert_key
    ∷ printed "enable-http2" (show_bool f.enable_http2)
    ∷ []

module _ (h : Host) where
  set-show_bool :
      (put : Bool → Flags → Flags) (b : Bool) (s : Settings h)
      → (bool_var h put).set (show_bool b) s ≡ some (put b s.0, s.1)
  unfolding bool_var parse_bool
  set-show_bool put true s = refl
  set-show_bool put false s = refl

  reads :
      (name value : String) (f : Setting (Settings h)) (s t : Settings h) (args : List String)
      (end : Reading (Settings h))
      → is_name name ≡ true
      → formal h name ≡ some f
      → f.set value s ≡ some t
      → read_all (formal h) (between t) args ≡ end
      → read_all (formal h) (between s) (printed name value ∷ args) ≡ end
  reads name value f s t args end valid known accepted rest =
      read_all-cons (formal h) (between s) (between t) end (printed name value) args
        (step-printed (formal h) name value f s t valid known accepted) rest

  reads_bool :
      (name : String) (put : Bool → Flags → Flags) (b : Bool) (s : Settings h) (args : List String)
      (end : Reading (Settings h))
      → is_name name ≡ true
      → formal h name ≡ some (bool_var h put)
      → read_all (formal h) (between (put b s.0, s.1)) args ≡ end
      → read_all (formal h) (between s) (printed name (show_bool b) ∷ args) ≡ end
  reads_bool name put b s args end valid known rest =
      reads name (show_bool b) (bool_var h put) s (put b s.0, s.1) args end valid known
        (set-show_bool put b s) rest

  read_all-to_args :
      (flags old : Flags) (other : h.Other)
      → read_all (formal h) (between (old, other)) (to_args flags) ≡ between (flags, other)
  unfolding to_args formal own_flags
  read_all-to_args flags old other =
      (reads _ _ _ _ _ _ _ refl refl refl (
        reads _ _ _ _ _ _ _ refl refl refl (
          reads_bool _ _ flags.enable_leader_election _ _ _ refl refl (
            reads_bool _ _ flags.secure_metrics _ _ _ refl refl (
              reads _ _ _ _ _ _ _ refl refl refl (
                reads _ _ _ _ _ _ _ refl refl refl (
                  reads _ _ _ _ _ _ _ refl refl refl (
                    reads _ _ _ _ _ _ _ refl refl refl (
                      reads _ _ _ _ _ _ _ refl refl refl (
                        reads _ _ _ _ _ _ _ refl refl refl (
                          reads_bool _ _ flags.enable_http2 _ _ _ refl refl
                            (read_all-nil (formal h) _))))))))))))

  -- The arguments that spell out each flag, as its name and its value, are read back as these
  -- flags, whatever the values of the flags before, and the flags of the libraries keep their
  -- values.
  pub parse-to_args :
      (flags old : Flags) (other : h.Other)
      → parse (formal h) (to_args flags) (old, other) ≡ inr (flags, other)
  unfolding parse
  parse-to_args flags old other = ap (outcome (formal h)) (read_all-to_args flags old other)
