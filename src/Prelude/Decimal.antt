-- ===== src/Prelude/Decimal.antt =====
-- Go's `strconv.Itoa` of a number that is not negative.
use Prim.Native.Nat.{ℕ, zero, suc, ◌/◌, ◌%◌, ◌<◌, ◌≤◌}
use mathlib.Core.Path.{◌≡◌}
use native.Mathlib.Omega.{arith}
use Prim.Native.String.{String, ◌++◌}
use starknet_operators.Prelude.Lists.{if◌then◌else◌, nat_eq, ltb}

digit : ℕ → String
digit d =
    if nat_eq d 0
    then "0"
    else if nat_eq d 1
    then "1"
    else if nat_eq d 2
    then "2"
    else if nat_eq d 3
    then "3"
    else if nat_eq d 4
    then "4"
    else if nat_eq d 5
    then "5"
    else if nat_eq d 6
    then "6"
    else if nat_eq d 7
    then "7"
    else if nat_eq d 8
    then "8"
    else "9"

-- The last digits of a number, as many as the fuel.
digits : ℕ → ℕ → String
unfolding digit
digits zero n = ""
digits (suc fuel) n =
    let front = digits fuel (n / 10) in if ltb n 10 then digit n else front ++ digit (n % 10)

unfoldable pub itoa : ℕ → String
unfolding digits
itoa n = digits (suc n) n

module _ (n : ℕ) where
  same_front :
      (a b : String)
      → (10 ≤ n → a ≡ b)
      → (if ltb n 10 then digit n else a ++ digit (n % 10))
        ≡ (if ltb n 10 then digit n else b ++ digit (n % 10))
  same_front a b h = ground (arith, h)

-- Any fuel above the number gives the same digits.
digits_enough : (f g n : ℕ) → n < f → n < g → digits f n ≡ digits g n
unfolding digits
digits_enough zero g n h i = ground arith
digits_enough (suc f) zero n h i = ground arith
digits_enough (suc f) (suc g) n h i =
    same_front n (digits f (n / 10)) (digits g (n / 10))
      (λ big. digits_enough f g (n / 10) (omega (arith, h, big)) (omega (arith, i, big)))

-- The fuel is enough: the text of a number is that of its front followed by its last digit.
itoa_lem : (n : ℕ) → itoa n ≡ (if ltb n 10 then digit n else itoa (n / 10) ++ digit (n % 10))
unfolding itoa digits
itoa_lem n =
    same_front n (digits n (n / 10)) (digits (suc (n / 10)) (n / 10))
      (λ big. digits_enough n (suc (n / 10)) (n / 10) (omega (arith, big)) (omega arith))
