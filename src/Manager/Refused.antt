-- ===== src/Manager/Refused.antt =====
-- Arguments that the process refuses, or that ask for help.
use starknet_operators.Prelude.{◌≡◌, ℕ, String, Option, ◌⊎◌}
use starknet_operators.Manager.Host.{Host}
use starknet_operators.Manager.FlagSet.{Setting, Reading, between, wanting, stopped, exiting}
use starknet_operators.Manager.Flags.{formal}

-- The exit codes of Go's package flag.
abbrev pub IsFlagCode : ℕ → Type 0
IsFlagCode code = (code ≡ 0) ⊎ (code ≡ 2)

module _ {S : Type 0} (formal : String → Option (Setting S)) where
  IsRegular : Reading S → Type 0
  IsRegular (exiting code) = IsFlagCode code
  IsRegular (between s) = Unit {0}
  IsRegular (wanting set s) = Unit {0}
  IsRegular (stopped s) = Unit {0}
