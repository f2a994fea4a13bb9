-- ===== src/Manager/FlagSet/Argument.antt =====
-- One argument of a process, as Go's package flag reads it, and `strconv.ParseBool`.
use Prim.Native.Char.{Char, char, code}
use Prim.Native.String.{[], ◌∷◌}
use Prim.Native.String.append
use Prim.Native.String.compare
use text.Mathlib.Text.{is_eq}
use starknet_operators.Prelude.{
  arith, ◌≡◌, sym, ap, ◌∙◌, String, ◌<>◌, ◌==◌, Bool, not, ◌&&◌, true, false, ◌||◌, if◌then◌else◌,
  nat_eq, Option, none, some,
}

-- strconv.ParseBool
unfoldable pub parse_bool : String → Option Bool
parse_bool s =
    if s == "1" || s == "t" || s == "T" || s == "true" || s == "TRUE" || s == "True"
    then some true
    else if s == "0" || s == "f" || s == "F" || s == "false" || s == "FALSE" || s == "False"
    then some false
    else none

pub data Arg : Type 0 where
  operand : Arg
  terminator : Arg
  bad_syntax : Arg
  named : String → Option String → Arg

-- A name up to the first "=", and what follows it.
unfoldable pub cut : String → String × Option String
cut [] = ("", none)
cut (c ∷ s) =
    let (name, value) = cut s in if nat_eq (code c) b'=' then ("", some s) else (c ∷ name, value)

unfoldable pub named_arg : String → Arg
named_arg [] = bad_syntax
named_arg (c ∷ s) =
    if nat_eq (code c) b'-' || nat_eq (code c) b'='
    then bad_syntax
    else let (name, value) = cut (c ∷ s) in named name value

unfoldable after_dash : String → Arg
unfolding named_arg
after_dash [] = operand
after_dash (c ∷ s) =
    if nat_eq (code c) b'-' then if s == "" then terminator else named_arg s else named_arg (c ∷ s)

unfoldable pub arg_of : String → Arg
unfolding after_dash
arg_of [] = operand
arg_of (c ∷ s) = if nat_eq (code c) b'-' then after_dash s else operand

-- A text without "=".
abbrev pub is_plain : String → Bool
is_plain [] = true
is_plain (c ∷ s) = not (nat_eq (code c) b'=') && is_plain s

single-append : (c : Char) (v : String) → (c ∷ []) <> v ≡ c ∷ v
single-append c v = append.cons c [] v ∙ ap (λ t. c ∷ t) (append.nil v)

cut-cons :
    (c : Char) (s n v : String)
    → nat_eq (code c) b'=' ≡ false
    → cut s ≡ (n, some v)
    → cut (c ∷ s) ≡ (c ∷ n, some v)
unfolding cut
cut-cons c s n v other rest = ground arith

cut-append : (n v : String) → is_plain n ≡ true → cut (n <> ("=" <> v)) ≡ (n, some v)
unfolding cut
cut-append [] v plain = ap cut (append.nil ("=" <> v) ∙ single-append (char b'=' tt) v)
cut-append (c ∷ n) v plain =
    ap cut (append.cons c n ("=" <> v))
    ∙ cut-cons c (n <> ("=" <> v)) n v (ground arith) (cut-append n v (ground arith))

-- A name that a flag may have.
abbrev pub is_name : String → Bool
is_name [] = false
is_name (c ∷ s) = not (nat_eq (code c) b'-') && is_plain (c ∷ s)

named_arg-cons :
    (c : Char) (s : String) (a : String × Option String)
    → nat_eq (code c) b'-' ≡ false
    → nat_eq (code c) b'=' ≡ false
    → cut (c ∷ s) ≡ a
    → named_arg (c ∷ s) ≡ named a.0 a.1
unfolding named_arg
named_arg-cons c s a start other cuts = ground arith

named_arg-append :
    (n v : String) → is_name n ≡ true → named_arg (n <> ("=" <> v)) ≡ named n (some v)
named_arg-append [] v name = ground arith
named_arg-append (c ∷ n) v name =
    ap named_arg (append.cons c n ("=" <> v))
    ∙ named_arg-cons c (n <> ("=" <> v)) (c ∷ n, some v) (ground arith) (ground arith)
        (ap cut (sym (append.cons c n ("=" <> v))) ∙ cut-append (c ∷ n) v (ground arith))

named_arg-dashes :
    (s : String) (a : Arg) → (s == "") ≡ false → named_arg s ≡ a → arg_of ("--" <> s) ≡ a
unfolding arg_of after_dash
named_arg-dashes s a given parsed =
    ap arg_of (
      append.cons (char b'-' tt) "-" s
      ∙ ap (λ t. char b'-' tt ∷ t) (single-append (char b'-' tt) s))
    ∙ ground arith

cons-ne-empty : (c : Char) (s t : String) → t ≡ c ∷ s → (t == "") ≡ false
cons-ne-empty c s t same = ap (λ u. u == "") same ∙ ap is_eq (compare.cons-nil c s)

name-ne-empty : (n v : String) → is_name n ≡ true → (n <> v == "") ≡ false
name-ne-empty [] v name = ground arith
name-ne-empty (c ∷ n) v name = cons-ne-empty c (n <> v) ((c ∷ n) <> v) (append.cons c n v)

pub arg_of-printed :
    (n v : String) → is_name n ≡ true → arg_of ("--" <> (n <> ("=" <> v))) ≡ named n (some v)
arg_of-printed n v name =
    named_arg-dashes (n <> ("=" <> v)) (named n (some v)) (name-ne-empty n ("=" <> v) name)
      (named_arg-append n v name)
