-- ===== src/Database/Arrow/Search/Reads.antt =====
-- Reading the rows of a batch and of a block.
use runtime_rs.Base.{
  ℕ, ◌≡◌, refl, ap, sym, ◌∙◌, ◌+◌, ◌++◌, if◌then◌else◌, Bool, true, false, List, [], ◌∷◌, Option,
  Str, length, arith, All, Bool-cases, inl, inr,
}
use runtime_rs.Database.Arrow.Key.{Key, precedes, precedes_irrefl, precedes_trans, precedes_total}
use runtime_rs.Database.Arrow.Heap.{sort, All-insert, sort-IsRanked}
use runtime_rs.Database.Arrow.Gather.{
  step, filter, filter-All, gather, gather-append, gather-filter, gather-sort,
}
use runtime_rs.Database.Arrow.Search as Finding
use runtime_rs.Database.Arrow.Search.{
  Range, Search, Times, keep, contains, satisfies, is_filtered, keys_of, count, add_matched,
}
use runtime_rs.Database.Arrow.Search.Finds.{
  gathered_idle, target, Holds, Past, gathered, gathered-Holds, offer_each_exact,
  offer_chunks_exact,
}

pub count-append :
    (p : Key → Bool) (xs ys : List Key) → count p (xs ++ ys) ≡ count p xs + count p ys
count-append p [] ys = ground arith
count-append p (x ∷ xs) ys = ground (arith, count-append p xs ys)

count-filter :
    (p q : Key → Bool) (xs : List Key)
    → ((x : Key) → q x ≡ false → p x ≡ false)
    → count p (filter q xs) ≡ count p xs
count-filter p q [] h = refl
count-filter p q (x ∷ xs) h = ground (arith, h x, count-filter p q xs h)

pub count_whole :
    (range : Range) (xs : List Key)
    → is_filtered range ≡ false
    → All (λ k. contains range k ≡ true) xs
    → count (keep range) xs ≡ length xs
count_whole range [] h g = refl
count_whole range (x ∷ xs) h g = ground (arith, h, g.0, count_whole range xs h g.1)

-- The rows of a block.
abbrev pub block_keys : Str → ℕ → List Times → List Key
block_keys segment row [] = []
block_keys segment row (times ∷ batches) =
    keys_of segment row times ++ block_keys segment (row + length times) batches

module _ (range : Range) where
  abbrev with_matched : Option ℕ → Search → Search
  with_matched m s = record s { matched = m }

  -- The search that has met the given rows, counting or not.
  abbrev pub seen : Bool → List Key → Search → Search
  seen counting ks s = record (gathered range ks s) {
    matched = if counting then add_matched (count (keep range) ks) s.matched else s.matched;
  }

  sort-Past :
      (after : Option Key) (xs : List Key)
      → Past range after xs
      → Past range after (sort (precedes range.descending) xs)
  unfolding sort
  sort-Past after [] h = tt
  sort-Past after (x ∷ xs) h =
      All-insert (precedes range.descending) (precedes_irrefl range.descending)
        (precedes_trans range.descending) (precedes_total range.descending)
        (λ k. Finding.after_cursor range after k ≡ true) x (sort (precedes range.descending) xs) h.0
        (sort-Past after xs h.1)

  ranked_exact :
      (rows : List Key) (s : Search)
      → Holds range s
      → let ranked =
          sort (precedes range.descending) (filter (Finding.after_cursor range s.after) rows) in
        Finding.offer_chunks range (length ranked) (Finding.max range s.capacity 256) s ranked
        ≡ gathered range rows s
  unfolding Finding.max
  ranked_exact rows s h =
      let d = range.descending in
      let past = filter (Finding.after_cursor range s.after) rows in
      let ranked = sort (precedes d) past in
      offer_chunks_exact range (length ranked) (Finding.max range s.capacity 256) ranked s h
        (sort-IsRanked (precedes d) (precedes_irrefl d) (precedes_trans d) (precedes_total d) past)
        (sort-Past s.after past (filter-All (Finding.after_cursor range s.after) rows))
        (ground arith) (ground arith)
      ∙ ap (λ best. record s { best = best })
          (gather-sort (precedes d) (precedes_irrefl d) (precedes_trans d) (precedes_total d)
              (target range s.after) s.capacity past s.best
            ∙ gather-filter (precedes d) (target range s.after) (Finding.after_cursor range s.after)
                s.capacity rows s.best (λ x e. ground (arith, e)))

  outside_missed : (k : Key) → contains range k ≡ false → keep range k ≡ false
  outside_missed k h = ground (arith, h)

  inside_gathered :
      (ks : List Key) (s : Search)
      → gathered range (filter (contains range) ks) s ≡ gathered range ks s
  inside_gathered ks s =
      ap (λ best. record s { best = best })
        (gather-filter (precedes range.descending) (target range s.after) (contains range)
          s.capacity ks s.best (λ x e. ground (arith, e)))

  batch_exact :
      (segment : Str) (counting : Bool) (first : ℕ) (times : Times) (s : Search)
      → Holds range s
      → Finding.batch range segment counting first times s
        ≡ seen counting (keys_of segment first times) s
  unfolding Finding.batch
  batch_exact segment false first times s h =
      let rows = filter (contains range) (keys_of segment first times) in
      ranked_exact rows s h ∙ inside_gathered (keys_of segment first times) s
  batch_exact segment true first times s h =
      let keys = keys_of segment first times in
      let rows = filter (contains range) keys in
      let counted = count-filter (keep range) (contains range) keys outside_missed in
      elim (Bool-cases (is_filtered range)) [
        | inl filtered ↦ rw filtered (
            ap (with_matched (add_matched (count (keep range) rows) s.matched))
              (offer_each_exact range rows s h ∙ inside_gathered keys s)
            ∙ ap (λ n. with_matched (add_matched n s.matched) (gathered range keys s)) counted)
        | inr plain ↦ rw plain (
            ranked_exact rows (with_matched (add_matched (length rows) s.matched) s) h
            ∙ (inside_gathered keys (with_matched (add_matched (length rows) s.matched) s)
                ∙ ap (λ n. with_matched (add_matched n s.matched) (gathered range keys s))
                    (sym (count_whole range rows plain (filter-All (contains range) keys))
                      ∙ counted)))
      ]

  pub seen-append :
      (counting : Bool) (xs ys : List Key) (s : Search)
      → seen counting ys (seen counting xs s) ≡ seen counting (xs ++ ys) s
  seen-append counting xs ys s = ground (
    arith,
    gather-append (precedes range.descending) (target range s.after) s.capacity xs ys s.best,
    count-append (keep range) xs ys,
  )

  pub read_exact :
      (segment : Str) (counting : Bool) (row : ℕ) (batches : List Times) (s : Search)
      → Holds range s
      → Finding.read range segment counting row batches s
        ≡ seen counting (block_keys segment row batches) s
  unfolding Finding.read gather
  read_exact segment counting row [] s h = ground arith
  read_exact segment counting row (times ∷ batches) s h =
      let keys = keys_of segment row times in
      ap (Finding.read range segment counting (row + length times) batches)
        (batch_exact segment counting row times s h)
      ∙ (read_exact segment counting (row + length times) batches (seen counting keys s)
            (gathered-Holds range keys s h)
          ∙ seen-append counting keys (block_keys segment (row + length times) batches) s)

  -- Rows that no window holds leave the search as it is.
  pub unseen :
      (counting : Bool) (ks : List Key) (s : Search)
      → All (λ k. keep range k ≡ false) ks
      → s ≡ seen counting ks s
  unseen counting ks s h =
      gathered_idle range ks s (idle ks h)
      ∙ ap (λ m. with_matched m (gathered range ks s)) (uncounted ks h)
    where
      idle :
          (ks : List Key)
          → All (λ k. keep range k ≡ false) ks
          → All
              (λ y.
                step (precedes range.descending) (target range s.after) s.capacity y s.best
                ≡ s.best)
              ks
      idle [] h = tt
      idle (k ∷ ks) h = (ground (arith, h.0), idle ks h.1)

      uncounted :
          (ks : List Key)
          → All (λ k. keep range k ≡ false) ks
          → s.matched
            ≡ (if counting then add_matched (count (keep range) ks) s.matched else s.matched)
      uncounted [] h = ground arith
      uncounted (k ∷ ks) h = ground (arith, h.0, uncounted ks h.1)
