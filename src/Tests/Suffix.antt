-- ===== src/Tests/Suffix.antt =====
-- The names of storage claims, told from the others by their suffix.
use Prim.Native.String.{String}
use Prim.Native.Char.{Char}
use text.Mathlib.TextLemmas.{cons-append}
use starknet_operators.Prelude.{
  ◌≡◌, refl, sym, ap, ◌∙◌, Bool, true, false, Bool-cases, inl, inr, ◌<>◌, ◌==◌, eq_iff,
  if◌then◌else◌,
}
use starknet_operators.Controller.Manifest.Disjoint.{storage_not_restore}

pub ends_so : String → Bool
ends_so String.[] = false
ends_so (String.◌∷◌ c s) = if String.◌∷◌ c s == "-storage" then true else ends_so s

ends_so_cons :
    (c : Char) (a t : String)
    → ends_so (String.◌∷◌ c a <> t)
      ≡ (if String.◌∷◌ c (a <> t) == "-storage" then true else ends_so (a <> t))
unfolding ends_so
ends_so_cons c a t = ap ends_so (cons-append c a t)

pub storage-ends_so : (a : String) → ends_so (a <> "-storage") ≡ true
unfolding ends_so
storage-ends_so String.[] = refl
storage-ends_so (String.◌∷◌ c a) =
    ends_so_cons c a "-storage"
    ∙ rw (storage-ends_so a) (elim (Bool-cases (String.◌∷◌ c (a <> "-storage") == "-storage")) [
      | inl e ↦ rw e
      | inr e ↦ rw e
    ])

pub restore-ends_so : (a : String) → ends_so (a <> "-archive-restore") ≡ false
unfolding ends_so
restore-ends_so String.[] = refl
restore-ends_so (String.◌∷◌ c a) =
    let s = String.◌∷◌ c (a <> "-archive-restore") in
    ends_so_cons c a "-archive-restore" ∙ elim (Bool-cases (s == "-storage")) [
      | inl e ↦ absurd (
          storage_not_restore "" (String.◌∷◌ c a)
            (sym (cons-append c a "-archive-restore" ∙ (eq_iff s "-storage").0 e)))
      | inr e ↦ rw e (restore-ends_so a)
    ]
