-- ===== src/DeepCopy/Arrays.antt =====
-- Slices are copied deeply, element by element.
use starknet_operators.Prelude.{
  arith, ◌≡◌, refl, sym, ap, ◌∙◌, ℕ, suc, ◌≤◌, Option, none, some, List, [], ◌∷◌, length, take,
}
use starknet_operators.DeepCopy.Heap.{AgreeOn, Extends, Goes, ◌then◌, pure-Goes}
use starknet_operators.DeepCopy.Layout.{
  Slot, Header, elements, copy_all, copy_slice, Layout, IsDeep, slice, ShowsAll,
}
use starknet_operators.DeepCopy.Goes.{◌>>=◌}
use starknet_operators.DeepCopy.Pointers.{Points-moves, new_cell-Goes, load-Goes, copied, kept}

take-all {ℓ} : {A : Type ℓ} (xs : List A) → take (length xs) xs ≡ xs
take-all [] = refl
take-all (x ∷ xs) = ap (λ l. x ∷ l) (take-all xs)

module _ {C M V : Type 0} (l : Layout C M V) (deep : IsDeep l) where
  length-ShowsAll :
      (h : List C) (lo hi : ℕ) (ms : List M) (vs : List V)
      → ShowsAll l h lo hi ms vs
      → length ms ≡ length vs
  length-ShowsAll h lo hi [] [] shown = refl
  length-ShowsAll h lo hi [] (v ∷ vs) shown = elim shown [ ]
  length-ShowsAll h lo hi (m ∷ ms) [] shown = elim shown [ ]
  length-ShowsAll h lo hi (m ∷ ms) (v ∷ vs) shown = ap suc (length-ShowsAll h lo hi ms vs shown.1)

  ShowsAll-moves :
      (h h' : List C) (lo lo' hi hi' : ℕ) (ms : List M) (vs : List V)
      → lo' ≤ lo
      → hi ≤ hi'
      → AgreeOn lo hi h h'
      → ShowsAll l h lo hi ms vs
      → ShowsAll l h' lo' hi' ms vs
  ShowsAll-moves h h' lo lo' hi hi' [] [] low high agree shown = tt
  ShowsAll-moves h h' lo lo' hi hi' [] (v ∷ vs) low high agree shown = elim shown [ ]
  ShowsAll-moves h h' lo lo' hi hi' (m ∷ ms) [] low high agree shown = elim shown [ ]
  ShowsAll-moves h h' lo lo' hi hi' (m ∷ ms) (v ∷ vs) low high agree shown = (
    deep.moves h h' lo lo' hi hi' m v low high agree shown.0,
    ShowsAll-moves h h' lo lo' hi hi' ms vs low high agree shown.1,
  )

  -- Each element is copied, and the copies made first are still shown after the later ones.
  copy_all-Goes :
      (h h' : List C) (lo hi : ℕ) (ms : List M) (vs : List V)
      → hi ≤ length h
      → Extends h h'
      → ShowsAll l h lo hi ms vs
      → Goes h' (copy_all l.copy ms) (λ h'' ms'. ShowsAll l h'' (length h) (length h'') ms' vs)
  unfolding copy_all
  copy_all-Goes h h' lo hi [] [] fits g shown =
      pure-Goes {Q = λ h'' ms'. ShowsAll l h'' (length h) (length h'') ms' []} h' [] tt
  copy_all-Goes h h' lo hi [] (v ∷ vs) fits g shown = elim shown [ ]
  copy_all-Goes h h' lo hi (m ∷ ms) [] fits g shown = elim shown [ ]
  copy_all-Goes h h' lo hi (m ∷ ms) (v ∷ vs) fits g shown =
      copied deep m v fits g shown.0 >>= λ m' h1 g1 new.
      copy_all-Goes h h1 lo hi ms vs fits (g then g1) shown.1 >>= λ ms' h2 g2 news.
      pure-Goes {Q = λ h'' ms'. ShowsAll l h'' (length h) (length h'') ms' (v ∷ vs)} h2 (m' ∷ ms')
        (kept deep m' v g2 new, news)

  module _ (slot : Slot C (List M)) where
    slice-moves :
        (h h' : List C) (lo lo' hi hi' : ℕ) (s : Option Header) (vs : List V)
        → lo' ≤ lo
        → hi ≤ hi'
        → AgreeOn lo hi h h'
        → (slice l slot).Shows h lo hi s vs
        → (slice l slot).Shows h' lo' hi' s vs
    slice-moves h h' lo lo' hi hi' none [] low high agree shown = tt
    slice-moves h h' lo lo' hi hi' none (v ∷ vs) low high agree shown = elim shown [ ]
    slice-moves h h' lo lo' hi hi' (some s) vs low high agree (size, points) = (
      size,
      Points-moves slot h h' lo lo' hi hi' s.array low high agree
          (λ ms. ShowsAll-moves h h' lo lo' hi hi' (elements s ms) vs low high agree) points,
    )

    -- An array that is as long as its header says is shown whole.
    whole_array-Shows :
        (h h' : List C) (lo n a : ℕ) (ys : List M) (vs : List V)
        → length vs ≡ n
        → Extends h h'
        → ShowsAll l h lo (length h) ys vs
        → ShowsAll l h' lo (length h') (elements (record { array = a; start = 0; len = n }) ys) vs
    whole_array-Shows h h' lo n a ys vs size g news =
        let sizes = length-ShowsAll h lo (length h) ys vs news ∙ size in
        let whole : take n ys ≡ ys = ap (λ k. take k ys) (sym sizes) ∙ take-all ys in
        rw whole (
          ShowsAll-moves h h' lo lo (length h) (length h') ys vs (omega arith) g.grows
            (λ b above below. g.agree b (omega arith) below) news)

    slice-copies :
        (h : List C) (lo hi : ℕ) (s : Option Header) (vs : List V)
        → hi ≤ length h
        → (slice l slot).Shows h lo hi s vs
        → Goes h
            ((slice l slot).copy s)
            (λ h' s'. (slice l slot).Shows h' (length h) (length h') s' vs)
    unfolding copy_slice
    slice-copies h lo hi none [] fits shown =
        pure-Goes {Q = λ h' s'. (slice l slot).Shows h' (length h) (length h') s' []} h none tt
    slice-copies h lo hi none (v ∷ vs) fits shown = elim shown [ ]
    slice-copies h lo hi (some s) vs fits (size, (above, below, xs, e, shown)) =
        load-Goes slot h s.array xs e >>= λ xs' h0 g0 same.
        copy_all-Goes h h0 lo hi (elements s xs') vs fits g0 (rw same shown) >>= λ ys h1 g1 news.
        new_cell-Goes slot h1 ys >>= λ a h2 g2 (room, holds).
        pure-Goes {Q = λ h' s'. (slice l slot).Shows h' (length h) (length h') s' vs} h2
          (some (record { array = a; start = 0; len = s.len }))
          (
            size,
            (
              omega (arith, (g0 then g1).grows, room),
              omega (arith, room),
              ys,
              holds,
              whole_array-Shows h1 h2 (length h) s.len a ys vs size g2 news,
            ),
          )

    pub slice-IsDeep : IsDeep (slice l slot)
    slice-IsDeep = record { moves = slice-moves; copies = slice-copies }
