-- ===== src/DeepCopy/Pointers.antt =====
-- What is behind a pointer, and maps, are copied deeply.
use starknet_operators.Prelude.{
  arith, ◌≡◌, refl, String, ap, ◌∙◌, ℕ, ◌≤◌, ◌<◌, Option, none, some, List, [], length,
}
use starknet_operators.Prelude.StringMap.{
  StringMap, HasKeysOnce, AreSame, lookup, copy, or_else, copy-HasKeysOnce, lookup-copy_override,
}
use starknet_operators.Prog.{Prog, ret, pure}
use starknet_operators.DeepCopy.Heap.{
  alloc, AgreeOn, Extends, Extends-refl, Goes, ◌then◌, pure-Goes, alloc-Goes, mono-Goes,
}
use starknet_operators.DeepCopy.Goes.{◌>>=◌}
use starknet_operators.DeepCopy.Layout.{
  Slot, held, load, or_panic, and_then, copy_pointer, Layout, IsDeep, plain, Points, pointer,
  string_map,
}

or_else-none : (o : Option String) → or_else o none ≡ o
or_else-none none = refl
or_else-none (some v) = refl

module _ {C : Type 0} where
  pub plain-IsDeep : {A : Type 0} → IsDeep (plain {C = C} {A = A})
  plain-IsDeep = record {
    moves = λ h h' lo lo' hi hi' m v low high agree shown. shown;
    copies = λ h lo hi m v fits shown. pure-Goes h m shown;
  }

  module _ {A : Type 0} (slot : Slot C A) where
    -- A cell stays where it is while its range is left alone.
    pub Points-moves :
        (h h' : List C) (lo lo' hi hi' p : ℕ) {P Q : A → Type 0}
        → lo' ≤ lo
        → hi ≤ hi'
        → AgreeOn lo hi h h'
        → ((a : A) → P a → Q a)
        → Points slot h lo hi p P
        → Points slot h' lo' hi' p Q
    Points-moves h h' lo lo' hi hi' p low high agree step (above, below, a, e, s) = (
      omega arith,
      omega arith,
      a,
      ap (λ o. and_then o slot.unpack) (agree p above below) ∙ e,
      step a s,
    )

    pub load-Goes :
        (h : List C) (p : ℕ) (a : A) → held slot h p ≡ some a → Goes h (load slot p) (λ h' b. b ≡ a)
    unfolding load
    load-Goes h p a e = record {
      result = a;
      final = h;
      runs = ap (λ o. (or_panic o, h)) e;
      extends = Extends-refl h;
      holds = refl;
    }

    -- A new cell has an address that was not used.
    pub new_cell-Goes :
        (h : List C) (a : A)
        → Goes h
            (alloc (slot.pack a))
            (λ h' r. ((length h ≤ r) × (r < length h')) × (held slot h' r ≡ some a))
    new_cell-Goes h a =
        alloc-Goes h (slot.pack a)
          {Q = λ h' r. ((length h ≤ r) × (r < length h')) × (held slot h' r ≡ some a)}
          λ h' g room at.
            ((omega arith, room), ap (λ o. and_then o slot.unpack) at ∙ slot.unpack-pack a)

    -- The copy of what a pointer points to is pointed to, in a new cell.
    pub copy_pointer-Goes :
        (copy_cell : A → Prog (List C) A) (h : List C) (lo hi p : ℕ) {P : A → Type 0}
        (Q : List C → A → Type 0)
        → Points slot h lo hi p P
        → ((a : A) (h' : List C) → P a → Extends h h' → Goes h' (copy_cell a) Q)
        → ((a : A) (h' h'' : List C) → Extends h h' → Extends h' h'' → Q h' a → Q h'' a)
        → Goes h
            (copy_pointer slot copy_cell (some p))
            (λ h' q. (r : ℕ) × (q ≡ some r) × Points slot h' (length h) (length h') r (Q h'))
    unfolding copy_pointer
    copy_pointer-Goes copy_cell h lo hi p Q (above, below, a, e, s) step later =
        load-Goes h p a e >>= λ a' h0 g0 same. step a' h0 (rw same s) g0 >>= λ b h1 g1 shown.
        new_cell-Goes h1 b >>= λ r h2 g2 (room, holds). pure-Goes h2 (some r) (
          r,
          refl,
          (
            omega (arith, (g0 then g1).grows, room),
            omega (arith, room),
            b,
            holds,
            later b h1 h2 (g0 then g1) g2 shown,
          ),
        )

  module _ {M V : Type 0} (l : Layout C M V) (deep : IsDeep l) where
    -- What was copied into new cells is still shown after more cells are added.
    pub still :
        (h h' : List C) (lo lo' : ℕ) (m : M) (v : V)
        → lo' ≤ lo
        → Extends h h'
        → l.Shows h lo (length h) m v
        → l.Shows h' lo' (length h') m v
    still h h' lo lo' m v low g shown =
        deep.moves h h' lo lo' (length h) (length h') m v low g.grows
          (λ a above below. g.agree a (omega arith) below) shown

    -- A copy that is made after other cells were added.
    pub copies_later :
        (h h' : List C) (lo hi : ℕ) (m : M) (v : V)
        → hi ≤ length h
        → Extends h h'
        → l.Shows h lo hi m v
        → Goes h' (l.copy m) (λ h'' m'. l.Shows h'' (length h) (length h'') m' v)
    copies_later h h' lo hi m v fits g shown =
        let shown' =
          deep.moves h h' lo lo hi hi m v (omega arith) (omega arith)
            (λ a above below. g.agree a (omega arith) (omega arith)) shown in
        mono-Goes (deep.copies h' lo hi m v (omega (arith, g.grows)) shown')
          λ m' h'' g' new. still h'' h'' (length h') (length h) m' v g.grows (Extends-refl h'') new

  module _ {M V : Type 0} {l : Layout C M V} (deep : IsDeep l) where
    -- A field is copied, after others were.
    pub copied :
        {h h' : List C} {lo hi : ℕ} (m : M) (v : V)
        → hi ≤ length h
        → Extends h h'
        → l.Shows h lo hi m v
        → Goes h' (l.copy m) (λ h'' m'. l.Shows h'' (length h) (length h'') m' v)
    copied {h} {h'} {lo} {hi} m v fits g shown = copies_later l deep h h' lo hi m v fits g shown

    -- A field is still there, in a wider range and where its cells are the same.
    pub moved :
        {h h' : List C} {lo lo' hi hi' : ℕ} (m : M) (v : V)
        → lo' ≤ lo
        → hi ≤ hi'
        → AgreeOn lo hi h h'
        → l.Shows h lo hi m v
        → l.Shows h' lo' hi' m v
    moved {h} {h'} {lo} {lo'} {hi} {hi'} m v = deep.moves h h' lo lo' hi hi' m v

    -- What was copied is still there after the fields that follow.
    pub kept :
        {h h' : List C} {lo : ℕ} (m : M) (v : V)
        → Extends h h'
        → l.Shows h lo (length h) m v
        → l.Shows h' lo (length h') m v
    kept {h} {h'} {lo} m v = still l deep h h' lo lo m v (omega arith)

  module _ {M V : Type 0} (slot : Slot C M) (l : Layout C M V) (deep : IsDeep l) where
    pointer-moves :
        (h h' : List C) (lo lo' hi hi' : ℕ) (p : Option ℕ) (v : Option V)
        → lo' ≤ lo
        → hi ≤ hi'
        → AgreeOn lo hi h h'
        → (pointer slot l).Shows h lo hi p v
        → (pointer slot l).Shows h' lo' hi' p v
    pointer-moves h h' lo lo' hi hi' none none low high agree shown = tt
    pointer-moves h h' lo lo' hi hi' none (some v) low high agree shown = elim shown [ ]
    pointer-moves h h' lo lo' hi hi' (some p) none low high agree shown = elim shown [ ]
    pointer-moves h h' lo lo' hi hi' (some p) (some v) low high agree shown =
        Points-moves slot h h' lo lo' hi hi' p low high agree
          (λ m. deep.moves h h' lo lo' hi hi' m v low high agree) shown

    pointer-copies :
        (h : List C) (lo hi : ℕ) (p : Option ℕ) (v : Option V)
        → hi ≤ length h
        → (pointer slot l).Shows h lo hi p v
        → Goes h
            ((pointer slot l).copy p)
            (λ h' q. (pointer slot l).Shows h' (length h) (length h') q v)
    unfolding copy_pointer
    pointer-copies h lo hi none none fits shown =
        pure-Goes {Q = λ h' q. (pointer slot l).Shows h' (length h) (length h') q none} h none tt
    pointer-copies h lo hi none (some v) fits shown = elim shown [ ]
    pointer-copies h lo hi (some p) none fits shown = elim shown [ ]
    pointer-copies h lo hi (some p) (some v) fits shown =
        mono-Goes
          (copy_pointer-Goes slot l.copy h lo hi p (λ h' m'. l.Shows h' (length h) (length h') m' v)
            shown (λ m h' s g. copies_later l deep h h' lo hi m v fits g s)
            (λ m' h' h'' g g' new.
              still l deep h' h'' (length h) (length h) m' v (omega arith) g' new))
          λ q h' g (r, e, points). rw e points

    pub pointer-IsDeep : IsDeep (pointer slot l)
    pointer-IsDeep = record { moves = pointer-moves; copies = pointer-copies }

    some_of_shown :
        (c : Option ℕ) (h' : List C) (lo hi : ℕ) (v : V)
        → (pointer slot l).Shows h' lo hi c (some v)
        → (q : ℕ) × (c ≡ some q)
    some_of_shown none h' lo hi v shown = elim shown [ ]
    some_of_shown (some q) h' lo hi v shown = (q, refl)

    -- The copy of a pointer that is not nil is not nil.
    pub copy_pointer-some :
        (h : List C) (p : ℕ) (v : V)
        → (pointer slot l).Shows h 0 (length h) (some p) (some v)
        → (q : ℕ) × (h' : List C) × (copy_pointer slot l.copy (some p) h ≡ (ret (some q), h'))
          × Extends h h'
          × (pointer slot l).Shows h' (length h) (length h') (some q) (some v)
    copy_pointer-some h p v shown =
        let r = pointer-copies h 0 (length h) (some p) (some v) (omega arith) shown in
        let (q, found) = some_of_shown r.result r.final (length h) (length r.final) v r.holds in
        (
          q,
          r.final,
          r.runs ∙ ap (λ (o : Option ℕ). (ret o, r.final)) found,
          r.extends,
          rw found at r.holds,
        )

  module _ (slot : Slot C StringMap) where
    map-moves :
        (h h' : List C) (lo lo' hi hi' : ℕ) (p : Option ℕ) (v : Option StringMap)
        → lo' ≤ lo
        → hi ≤ hi'
        → AgreeOn lo hi h h'
        → (string_map slot).Shows h lo hi p v
        → (string_map slot).Shows h' lo' hi' p v
    map-moves h h' lo lo' hi hi' none none low high agree shown = tt
    map-moves h h' lo lo' hi hi' none (some v) low high agree shown = elim shown [ ]
    map-moves h h' lo lo' hi hi' (some p) none low high agree shown = elim shown [ ]
    map-moves h h' lo lo' hi hi' (some p) (some v) low high agree shown =
        Points-moves slot h h' lo lo' hi hi' p low high agree (λ m s. s) shown

    copy-AreSame : (m v : StringMap) → HasKeysOnce m → AreSame m v → AreSame (copy [] m) v
    unfolding lookup
    copy-AreSame m v once same j =
        lookup-copy_override j [] m once ∙ or_else-none (lookup j m) ∙ same j

    map-copies :
        (h : List C) (lo hi : ℕ) (p : Option ℕ) (v : Option StringMap)
        → hi ≤ length h
        → (string_map slot).Shows h lo hi p v
        → Goes h
            ((string_map slot).copy p)
            (λ h' q. (string_map slot).Shows h' (length h) (length h') q v)
    unfolding copy_pointer
    map-copies h lo hi none none fits shown =
        pure-Goes {Q = λ h' q. (string_map slot).Shows h' (length h) (length h') q none} h none tt
    map-copies h lo hi none (some v) fits shown = elim shown [ ]
    map-copies h lo hi (some p) none fits shown = elim shown [ ]
    map-copies h lo hi (some p) (some v) fits shown =
        mono-Goes
          (copy_pointer-Goes slot (λ m. pure (copy [] m)) h lo hi p
            (λ h' m. HasKeysOnce m × AreSame m v) shown
            (λ m h' (once, same) g.
              pure-Goes h' (copy [] m) (copy-HasKeysOnce [] m tt, copy-AreSame m v once same))
            (λ m' h' h'' g g' new. new))
          λ q h' g (r, e, points). rw e points

    pub map-IsDeep : IsDeep (string_map slot)
    map-IsDeep = record { moves = map-moves; copies = map-copies }
