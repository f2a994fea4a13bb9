-- ===== src/Manager/FlagSet.antt =====
-- Go's package flag: the arguments of a process are read one after the other into a state.
pub mod Argument
unfoldable pub use Argument.*
use starknet_operators.Prelude.{
  arith, ◌≡◌, refl, ap, ◌∙◌, ℕ, String, ◌<>◌, Bool, true, false, if◌then◌else◌, ◌==◌, ◌||◌, Option,
  ◌⊎◌, inl, inr, none, some, List, [], ◌∷◌,
}

-- A flag with a value of type bool needs no argument; a value may be refused.
pub record Setting (S : Type 0) : Type 0 where
  pub is_bool : Bool
  pub set : String → S → Option S

-- How far the reading is: between two arguments, before the value of a flag, at the first argument
-- that is not a flag, or at an exit.
pub data Reading (S : Type 0) : Type 0 where
  between : S → Reading S
  wanting : (String → S → Option S) → S → Reading S
  stopped : S → Reading S
  exiting : ℕ → Reading S

module _ {S : Type 0} (formal : String → Option (Setting S)) where
  -- A value that is refused ends the process with code 2.
  abbrev after_set : Option S → Reading S
  after_set none = exiting 2
  after_set (some s) = between s

  abbrev with_value : Setting S → Option String → S → Reading S
  with_value f (some value) s = after_set (f.set value s)
  with_value f none s = if f.is_bool then after_set (f.set "true" s) else wanting f.set s

  -- An unknown flag asks for help, or is an error.
  abbrev look_up : Option (Setting S) → String → Option String → S → Reading S
  look_up none name value s = if name == "help" || name == "h" then exiting 0 else exiting 2
  look_up (some f) name value s = with_value f value s

  abbrev pub read_arg : Arg → S → Reading S
  read_arg operand s = stopped s
  read_arg terminator s = stopped s
  read_arg bad_syntax s = exiting 2
  read_arg (named name value) s = look_up (formal name) name value s

  unfoldable pub step : Reading S → String → Reading S
  unfolding arg_of
  step (between s) arg = read_arg (arg_of arg) s
  step (wanting set s) arg = after_set (set arg s)
  step (stopped s) arg = stopped s
  step (exiting code) arg = exiting code

  unfoldable pub read_all : Reading S → List String → Reading S
  unfolding step
  read_all r [] = r
  read_all r (arg ∷ args) = read_all (step r arg) args

  -- A flag whose value is missing at the end is an error; else the state is what was read.
  abbrev pub outcome : Reading S → ℕ ⊎ S
  outcome (between s) = inr s
  outcome (wanting set s) = inl 2
  outcome (stopped s) = inr s
  outcome (exiting code) = inl code

  -- flag.Parse()
  unfoldable pub parse : List String → S → ℕ ⊎ S
  unfolding read_all
  parse args s = outcome (read_all (between s) args)

  pub step-printed :
      (name value : String) (f : Setting S) (s t : S)
      → is_name name ≡ true
      → formal name ≡ some f
      → f.set value s ≡ some t
      → step (between s) ("--" <> (name <> ("=" <> value))) ≡ between t
  unfolding step arg_of
  step-printed name value f s t valid known accepted =
      ap (λ a. read_arg a s) (arg_of-printed name value valid) ∙ ground arith

  pub read_all-cons :
      (r q e : Reading S) (arg : String) (args : List String)
      → step r arg ≡ q
      → read_all q args ≡ e
      → read_all r (arg ∷ args) ≡ e
  unfolding read_all
  read_all-cons r q e arg args first rest = ap (λ t. read_all t args) first ∙ rest

  pub read_all-nil : (r : Reading S) → read_all r [] ≡ r
  unfolding read_all
  read_all-nil r = refl
