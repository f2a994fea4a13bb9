-- ===== src/Prelude/StringMap.antt =====
-- Go's `map[string]string`, as an association list, and `maps.Copy`. A key that is written is
-- written in its place, so a map has each key once. Reading a missing key gives Go's zero value.
use Prim.Native.String.{String}
use mathlib.Core.Path.{◌≡◌, refl}
use mathlib.Core.Bool.{Bool, true, ◌&&◌}
use mathlib.Core.Option.{Option, none, some}
use mathlib.Core.List.{List, [], ◌∷◌}
use native.Mathlib.Omega.{arith}
use text.Mathlib.Text.{◌==◌}
use text.Mathlib.TextEquality.{eq_iff}
use mathlib.Core.Logic.{inl, inr}
use starknet_operators.Prelude.Lists.{if◌then◌else◌, Option-cases}

abbrev pub StringMap : Type 0
StringMap = List (String × String)

unfoldable pub lookup : String → StringMap → Option String
lookup key [] = none
lookup key ((found, value) ∷ rest) = if found == key then some value else lookup key rest

abbrev pub or_empty : Option String → String
or_empty none = ""
or_empty (some v) = v

-- m[k]
unfoldable pub read : StringMap → String → String
unfolding lookup
read m k = or_empty (lookup k m)

-- m[k] = v
unfoldable pub insert : String → String → StringMap → StringMap
insert key value [] = (key, value) ∷ []
insert key value ((found, old) ∷ rest) =
    if found == key then (key, value) ∷ rest else (found, old) ∷ insert key value rest

-- maps.Copy(dst, src)
unfoldable pub copy : StringMap → StringMap → StringMap
unfolding insert
copy dst [] = dst
copy dst ((k, v) ∷ src) = copy (insert k v dst) src

-- Every entry of the first map is in the second: `for k, v := range want { if have[k] != v … }`.
unfoldable pub agrees : StringMap → StringMap → Bool
unfolding read
agrees [] have = true
agrees ((k, v) ∷ want) have = read have k == v && agrees want have

-- Each key stands once.
abbrev pub HasKeysOnce : StringMap → Type 0
HasKeysOnce [] = Unit
HasKeysOnce ((k, v) ∷ m) = (lookup k m ≡ none) × HasKeysOnce m

-- The key that was written has the new value, and any other key the value that it had.
lookup-insert :
    (key other value : String) (m : StringMap)
    → lookup other (insert key value m) ≡ (if key == other then some value else lookup other m)
unfolding lookup insert
lookup-insert key other value [] = refl
lookup-insert key other value ((found, old) ∷ rest) = ground (
  arith,
  lookup-insert key other value rest,
  eq_iff found other,
  eq_iff found key,
  eq_iff key other,
)

insert-HasKeysOnce : (k v : String) (m : StringMap) → HasKeysOnce m → HasKeysOnce (insert k v m)
unfolding lookup insert
insert-HasKeysOnce k v [] h = (refl, tt)
insert-HasKeysOnce k v ((i, w) ∷ m) h =
    ground (arith, eq_iff k i, eq_iff i k, lookup-insert k i v m, insert-HasKeysOnce k v m)

pub copy-HasKeysOnce : (dst src : StringMap) → HasKeysOnce dst → HasKeysOnce (copy dst src)
unfolding copy
copy-HasKeysOnce dst [] h = h
copy-HasKeysOnce dst ((k, v) ∷ src) h =
    copy-HasKeysOnce (insert k v dst) src (insert-HasKeysOnce k v dst h)

-- The same entries, in any order.
abbrev pub AreSame : StringMap → StringMap → Type 0
AreSame m m' = (j : String) → lookup j m ≡ lookup j m'

lookup-copy_absent :
    (j : String) (dst src : StringMap)
    → lookup j src ≡ none
    → lookup j (copy dst src) ≡ lookup j dst
unfolding lookup copy
lookup-copy_absent j dst [] h = refl
lookup-copy_absent j dst ((k, v) ∷ src) h =
    ground (arith, eq_iff k j, lookup-insert k j v dst, lookup-copy_absent j (insert k v dst) src)

-- A copied entry is found under its key.
lookup-copy :
    (j v : String) (dst src : StringMap)
    → HasKeysOnce src
    → lookup j src ≡ some v
    → lookup j (copy dst src) ≡ some v
unfolding lookup copy
lookup-copy j v dst [] h e = ground arith
lookup-copy j v dst ((k, w) ∷ src) h e = ground (
  arith,
  eq_iff k j,
  lookup-insert k j w dst,
  lookup-copy j v (insert k w dst) src h.1,
  lookup-copy_absent j (insert k w dst) src,
)

agrees_of_lookup :
    (want have : StringMap)
    → HasKeysOnce want
    → ((j v : String) → lookup j want ≡ some v → lookup j have ≡ some v)
    → agrees want have ≡ true
unfolding agrees lookup
agrees_of_lookup [] have h f = refl
agrees_of_lookup ((k, v) ∷ want) have h f = ground (
  arith,
  f k v,
  eq_iff k k,
  eq_iff v v,
  agrees_of_lookup want have h.1 (λ j w e. f j w (ground (arith, eq_iff k j))),
)

-- After a copy the target holds every entry of the source.
pub agrees-copy : (dst src : StringMap) → HasKeysOnce src → agrees src (copy dst src) ≡ true
agrees-copy dst src h = agrees_of_lookup src (copy dst src) h (λ j v. lookup-copy j v dst src h)

-- A map agrees with itself.
pub agrees_self : (m : StringMap) → HasKeysOnce m → agrees m m ≡ true
agrees_self m h = agrees_of_lookup m m h (λ j v e. e)

abbrev pub or_else : Option String → Option String → Option String
or_else none o = o
or_else (some v) o = some v

-- After a copy a key has the value of the source, if it has one there, or the one it had.
pub lookup-copy_override :
    (j : String) (dst src : StringMap)
    → HasKeysOnce src
    → lookup j (copy dst src) ≡ or_else (lookup j src) (lookup j dst)
lookup-copy_override j dst src h = elim (Option-cases (lookup j src)) [
  | inl e ↦ rw e (lookup-copy_absent j dst src e)
  | inr (v, e) ↦ rw e (lookup-copy j v dst src h e)
]
