-- ===== src/Database/Arrow/Search/Finds.antt =====
-- A search's heap after each of its operations, as what is gathered of the rows that it has met.
use Prim.Native.Nat.{zero, suc}
use runtime_rs.Base.{
  ℕ, ◌≡◌, ◌≤◌, ◌<◌, refl, ap, sym, ◌∙◌, ◌++◌, ◌&&◌, Bool, true, false, List, [], ◌∷◌, Option,
  length, arith, All, Bool-cases, Option-cases, inl, inr,
}
use runtime_rs.Database.Arrow.Key.{Key, precedes, precedes_irrefl, precedes_trans, precedes_total}
use runtime_rs.Database.Arrow.Heap.{
  take, skip, take-skip, length-skip, All-skip, last, push-take, push-kept, IsRanked, skip-IsRanked,
  not_before,
}
use runtime_rs.Database.Arrow.Gather.{
  step, gather, gather-append, gather_idle, gather-IsHeap, IsHeap,
}
use runtime_rs.Database.Arrow.Search as Finding
use runtime_rs.Database.Arrow.Search.{
  Range, Search, Times, keep, contains, satisfies, keys_of, count, add_matched,
}

-- The rows that the page may return.
abbrev pub target : Range → Option Key → Key → Bool
target range after k = keep range k && Finding.after_cursor range after k

module _ (range : Range) where
  abbrev lt : Key → Key → Bool
  lt = precedes range.descending

  abbrev pub Holds : Search → Type 0
  Holds s = IsHeap lt s.capacity s.best

  -- A key that has no place in the heap.
  pub beaten :
      (s : Search) (k : Key)
      → Holds s
      → Finding.beats range s k ≡ false
      → step lt (target range s.after) s.capacity k s.best ≡ s.best
  unfolding Finding.beats
  beaten s k h none_beaten = elim (Option-cases (last s.best)) [
    | inl gone ↦ absurd (ground (arith, none_beaten, gone))
    | inr (w, there) ↦ ground (
      arith,
      none_beaten,
      there,
      h.1,
      push-kept lt (precedes_irrefl range.descending) (precedes_trans range.descending)
          (precedes_total range.descending) s.capacity k w s.best h.0,
    )
  ]

  -- The search with the rows gathered.
  abbrev pub gathered : List Key → Search → Search
  gathered ks s = record s { best = gather lt (target range s.after) s.capacity ks s.best }

  pub gathered-Holds : (ks : List Key) (s : Search) → Holds s → Holds (gathered ks s)
  gathered-Holds ks s h =
      gather-IsHeap lt (precedes_irrefl range.descending) (precedes_trans range.descending)
        (precedes_total range.descending) (target range s.after) s.capacity ks s.best h

  offer_exact : (s : Search) (k : Key) → Holds s → Finding.offer range s k ≡ gathered (k ∷ []) s
  unfolding Finding.offer Finding.wanted Finding.push gather
  offer_exact s k h = ground (arith, beaten s k h, push-take lt s.capacity k s.best h.1)

  pub offer_each_exact :
      (ks : List Key) (s : Search) → Holds s → Finding.offer_each range s ks ≡ gathered ks s
  unfolding Finding.offer_each gather
  offer_each_exact [] s h = refl
  offer_each_exact (k ∷ ks) s h =
      ap (λ s'. Finding.offer_each range s' ks) (offer_exact s k h)
      ∙ offer_each_exact ks (gathered (k ∷ []) s) (gathered-Holds (k ∷ []) s h)

  -- Ranked keys of which the first has no place have none.
  pub none_fits :
      (k : Key) (ks : List Key) (s : Search)
      → Holds s
      → All (λ y. lt y k ≡ false) ks
      → Finding.beats range s k ≡ false
      → All (λ y. step lt (target range s.after) s.capacity y s.best ≡ s.best) ks
  unfolding Finding.beats
  none_fits k [] s h later none_beaten = tt
  none_fits k (y ∷ ys) s h later none_beaten = (
    beaten s y h (elim (Option-cases (last s.best)) [
      | inl gone ↦ absurd (ground (arith, none_beaten, gone))
      | inr (w, there) ↦ ground (
        arith,
        none_beaten,
        there,
        not_before lt (precedes_irrefl range.descending) (precedes_trans range.descending)
            (precedes_total range.descending) w k y,
      )
    ]),
    none_fits k ys s h later.1 none_beaten,
  )

  -- Keys that a search from `after` may return.
  abbrev pub Past : Option Key → List Key → Type 0
  Past after ks = All (λ k. Finding.after_cursor range after k ≡ true) ks

  pub gathered-append :
      (xs ys : List Key) (s : Search) → gathered ys (gathered xs s) ≡ gathered (xs ++ ys) s
  gathered-append xs ys s =
      ap (λ best. record s { best = best })
        (sym (gather-append lt (target range s.after) s.capacity xs ys s.best))

  pub gathered_idle :
      (ks : List Key) (s : Search)
      → All (λ y. step lt (target range s.after) s.capacity y s.best ≡ s.best) ks
      → s ≡ gathered ks s
  gathered_idle ks s h =
      ap (λ best. record s { best = best })
        (sym (gather_idle lt (target range s.after) s.capacity ks s.best h))

  wanted_past :
      (s : Search) (k : Key)
      → Finding.after_cursor range s.after k ≡ true
      → Finding.wanted range s k ≡ Finding.beats range s k
  unfolding Finding.wanted
  wanted_past s k h = ground (arith, h)

  pub offer_chunks_exact :
      (fuel size : ℕ) (ks : List Key) (s : Search)
      → Holds s
      → IsRanked lt ks
      → Past s.after ks
      → length ks ≤ fuel
      → 0 < size
      → Finding.offer_chunks range fuel size s ks ≡ gathered ks s
  unfolding Finding.offer_chunks
  offer_chunks_exact zero size [] s h r p e z = gathered_idle [] s tt
  offer_chunks_exact zero size (k ∷ ks) s h r p e z = absurd (ground (arith, e))
  offer_chunks_exact (suc fuel) size [] s h r p e z = gathered_idle [] s tt
  offer_chunks_exact (suc fuel) zero (k ∷ ks) s h r p e z = absurd (ground (arith, z))
  offer_chunks_exact (suc fuel) (suc size) (k ∷ ks) s h r p e z =
      rw (wanted_past s k p.0) (elim (Bool-cases (Finding.beats range s k)) [
        | inl room ↦
            let chunk = k ∷ take size ks in
            let rest = skip size ks in
            rw room (
              ap (λ s'. Finding.offer_chunks range fuel (suc size) s' rest)
                (offer_each_exact chunk s h)
              ∙ (offer_chunks_exact fuel (suc size) rest (gathered chunk s)
                    (gathered-Holds chunk s h) (skip-IsRanked lt size ks r.1)
                    (All-skip _ size ks p.1) (ground (arith, e, length-skip size ks)) z
                  ∙ (gathered-append chunk rest s
                      ∙ ap (λ l. gathered l s) (take-skip (suc size) (k ∷ ks)))))
        | inr full ↦
            rw full (gathered_idle (k ∷ ks) s (beaten s k h full, none_fits k ks s h r.0 full))
      ])
