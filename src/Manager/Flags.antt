-- ===== src/Manager/Flags.antt =====
-- The flags of the process (cmd/main.go), with the values that they have if they are not given.
use starknet_operators.Prelude.{
  ℕ, ◌⊎◌, String, ◌==◌, Bool, true, false, if◌then◌else◌, Option, none, some, List, [], ◌∷◌,
}
use starknet_operators.Manager.Host.{Host}
use starknet_operators.Manager.FlagSet.{Setting, parse_bool, parse, cut}

pub record Flags : Type 0 where
  pub metrics_addr : String
  pub probe_addr : String
  pub enable_leader_election : Bool
  pub secure_metrics : Bool
  pub webhook_cert_path : String
  pub webhook_cert_name : String
  pub webhook_cert_key : String
  pub metrics_cert_path : String
  pub metrics_cert_name : String
  pub metrics_cert_key : String
  pub enable_http2 : Bool

abbrev pub default_flags : Flags
default_flags = record {
  metrics_addr = "0";
  probe_addr = ":8081";
  enable_leader_election = false;
  secure_metrics = true;
  webhook_cert_path = "";
  webhook_cert_name = "tls.crt";
  webhook_cert_key = "tls.key";
  metrics_cert_path = "";
  metrics_cert_name = "tls.crt";
  metrics_cert_key = "tls.key";
  enable_http2 = false;
}

-- All that the arguments say: the flags of the process, and those of the libraries.
abbrev pub Settings : Host → Type 0
Settings h = Flags × h.Other

module _ (h : Host) where
  -- flag.StringVar
  abbrev string_var : (String → Flags → Flags) → Setting (Settings h)
  string_var put = record { is_bool = false; set = λ v s. some (put v s.0, s.1) }

  abbrev put_bool : (Bool → Flags → Flags) → Settings h → Option Bool → Option (Settings h)
  put_bool put s none = none
  put_bool put s (some b) = some (put b s.0, s.1)

  -- flag.BoolVar
  unfoldable pub bool_var : (Bool → Flags → Flags) → Setting (Settings h)
  unfolding parse_bool
  bool_var put = record { is_bool = true; set = λ v s. put_bool put s (parse_bool v) }

  -- The calls of main() that name a variable for a flag, in their order.
  unfoldable pub own_flags : List (String × Setting (Settings h))
  own_flags =
      ("metrics-bind-address", string_var λ v f. record f { metrics_addr = v })
      ∷ ("health-probe-bind-address", string_var λ v f. record f { probe_addr = v })
      ∷ ("leader-elect", bool_var λ b f. record f { enable_leader_election = b })
      ∷ ("metrics-secure", bool_var λ b f. record f { secure_metrics = b })
      ∷ ("webhook-cert-path", string_var λ v f. record f { webhook_cert_path = v })
      ∷ ("webhook-cert-name", string_var λ v f. record f { webhook_cert_name = v })
      ∷ ("webhook-cert-key", string_var λ v f. record f { webhook_cert_key = v })
      ∷ ("metrics-cert-path", string_var λ v f. record f { metrics_cert_path = v })
      ∷ ("metrics-cert-name", string_var λ v f. record f { metrics_cert_name = v })
      ∷ ("metrics-cert-key", string_var λ v f. record f { metrics_cert_key = v })
      ∷ ("enable-http2", bool_var λ b f. record f { enable_http2 = b })
      ∷ []

  abbrev put_other : Settings h → Option h.Other → Option (Settings h)
  put_other s none = none
  put_other s (some o) = some (s.0, o)

  abbrev library_flag : String → Option Bool → Option (Setting (Settings h))
  library_flag name none = none
  library_flag name (some is_bool) =
      some record { is_bool = is_bool; set = λ v s. put_other s (h.set_other name v s.1) }

  abbrev find : String → List (String × Setting (Settings h)) → Option (Setting (Settings h))
  find name [] = library_flag name (h.other_flag name)
  find name ((n, f) ∷ l) = if n == name then some f else find name l

  -- What flag.CommandLine knows under a name.
  unfoldable pub formal : String → Option (Setting (Settings h))
  unfolding own_flags
  formal name = find name own_flags

  -- flag.Parse(), after the variables have their default values.
  unfoldable pub parse_flags : List String → ℕ ⊎ Settings h
  unfolding formal parse cut bool_var
  parse_flags args = parse formal args (default_flags, h.other_default)
