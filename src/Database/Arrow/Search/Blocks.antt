-- ===== src/Database/Arrow/Search/Blocks.antt =====
-- What the index knows of a block is enough to skip it or to count it unread.
use runtime_rs.Base.{
  ℕ, ◌≡◌, ◌≤◌, ap, sym, ◌∙◌, ltb, leb, ◌&&◌, ◌||◌, not, if◌then◌else◌, Bool, true, false, List, [],
  ◌∷◌, Option, Str, length, arith, All, Bool-cases, Option-cases, inl, inr,
}
use runtime_rs.Database.Arrow.Key.{
  Key, precedes, precedes_irrefl, precedes_trans, precedes_total, greater_precedes, ranked_within,
}
use runtime_rs.Database.Arrow.Heap.{not_before}
use runtime_rs.Database.Arrow.Gather.{step}
use runtime_rs.Database.Arrow.Block.{Block, last_row, inside, outside}
use runtime_rs.Database.Arrow.Search as Finding
use runtime_rs.Database.Arrow.Search.{
  Range, Search, Times, keep, contains, satisfies, is_filtered, count, add_matched, is_counting,
}
use runtime_rs.Database.Arrow.Search.Finds.{target, Holds, gathered, gathered_idle, none_fits}
use runtime_rs.Database.Arrow.Search.Reads.{seen, unseen, block_keys, read_exact, count_whole}

-- A row of the block, as its index has it.
abbrev pub InBlock : Block → Str → Key → Type 0
InBlock b segment k =
    (k.segment ≡ segment)
    × (b.first_row ≤ k.row)
    × (k.row ≤ last_row b)
    × (b.min ≤ k.time)
    × (k.time ≤ b.max)

abbrev pub IsDescribed : Block → Str → List Key → Type 0
IsDescribed b segment ks = All (InBlock b segment) ks × (b.valid ≡ length ks)

module _ (range : Range) (b : Block) (segment : Str) where
  outside_missed :
      (ks : List Key)
      → IsDescribed b segment ks
      → outside b range.start range.end ≡ true
      → All (λ k. keep range k ≡ false) ks
  unfolding outside
  outside_missed [] h e = tt
  outside_missed (k ∷ ks) h e =
      (ground (arith, h.0.0, h.1, e), missed ks h.0.1 (ground (arith, h.1, e)))
    where
      missed :
          (ks : List Key)
          → All (InBlock b segment) ks
          → ltb b.max range.start || leb range.end b.min ≡ true
          → All (λ k. keep range k ≡ false) ks
      missed [] h e = tt
      missed (k ∷ ks) h e = (ground (arith, h.0, e), missed ks h.1 e)

  inside_contained :
      (ks : List Key)
      → All (InBlock b segment) ks
      → inside b range.start range.end ≡ true
      → All (λ k. contains range k ≡ true) ks
  unfolding inside
  inside_contained [] h e = tt
  inside_contained (k ∷ ks) h e = (ground (arith, h.0, e), inside_contained ks h.1 e)

  abbrev first_key : Key
  first_key = record {
    time = if range.descending then b.max else b.min;
    segment = segment;
    row = b.first_row;
  }

  abbrev final_key : Key
  final_key = record {
    time = if range.descending then b.min else b.max;
    segment = segment;
    row = last_row b;
  }

  first_leads :
      (ks : List Key)
      → All (InBlock b segment) ks
      → All (λ k. precedes range.descending k first_key ≡ false) ks
  first_leads [] h = tt
  first_leads (k ∷ ks) h = (
    ranked_within range.descending first_key k (sym h.0.0) (λ e. ground (arith, e, h.0))
        (λ e. ground (arith, e, h.0)) h.0.1,
    first_leads ks h.1,
  )

  -- Where even the last possible row is not past the cursor, none is.
  none_past :
      (ks : List Key) (s : Search)
      → All (InBlock b segment) ks
      → Finding.after_cursor range s.after final_key ≡ false
      → All
          (λ y.
            step (precedes range.descending) (target range s.after) s.capacity y s.best ≡ s.best)
          ks
  unfolding Finding.after_cursor
  none_past [] s h e = tt
  none_past (k ∷ ks) s h e = elim (Option-cases s.after) [
    | inl start ↦ absurd (ground (arith, e, start))
    | inr (a, there) ↦ (
      ground (
        arith,
        e,
        there,
        greater_precedes range.descending k a,
        greater_precedes range.descending final_key a,
        ranked_within range.descending k final_key h.0.0 (λ x. ground (arith, x, h.0))
            (λ x. ground (arith, x, h.0)) h.0.2,
        not_before (precedes range.descending) (precedes_irrefl range.descending)
            (precedes_trans range.descending) (precedes_total range.descending) k final_key a,
        precedes_trans range.descending a k final_key,
        precedes_total range.descending k final_key,
      ),
      none_past ks s h.1 e,
    )
  ]

  unneeded :
      (ks : List Key) (s : Search)
      → Holds range s
      → All (InBlock b segment) ks
      → Finding.needs range s b segment ≡ false
      → s ≡ gathered range ks s
  unfolding Finding.needs
  unneeded ks s h d e =
      gathered_idle range ks s (elim (Bool-cases (Finding.after_cursor range s.after final_key)) [
        | inl past ↦ none_fits range first_key ks s h (first_leads ks d) (ground (arith, e, past))
        | inr not_past ↦ none_past ks s d not_past
      ])

  read_or_skip :
      (counting : Bool) (batches : List Times) (s : Search)
      → Holds range s
      → All (InBlock b segment) (block_keys segment b.first_row batches)
      → (if counting || Finding.needs range s b segment
          then Finding.read range segment counting b.first_row batches s
          else s)
        ≡ seen range counting (block_keys segment b.first_row batches) s
  read_or_skip true batches s h d = read_exact range segment true b.first_row batches s h
  read_or_skip false batches s h d = elim (Bool-cases (Finding.needs range s b segment)) [
    | inl needed ↦ rw needed (read_exact range segment false b.first_row batches s h)
    | inr spared ↦ rw spared (unneeded (block_keys segment b.first_row batches) s h d spared)
  ]

  abbrev with_matched : Option ℕ → Search → Search
  with_matched m s = record s { matched = m }

  -- A block inside the window, of which no predicate asks anything, has as many matches as rows.
  counted_whole :
      (ks : List Key) (s : Search)
      → IsDescribed b segment ks
      → is_counting s && (not (is_filtered range) && inside b range.start range.end) ≡ true
      → seen range false ks (with_matched (add_matched b.valid s.matched) s)
        ≡ seen range (is_counting s) ks s
  counted_whole ks s d whole =
      let contained = inside_contained ks d.0 (ground (arith, whole)) in
      ap (λ m. with_matched m (gathered range ks s))
        (ground (arith, whole, d.1, count_whole range ks (ground (arith, whole)) contained))

  -- A block whose index is right is searched as if every row of it were looked at.
  pub block_exact :
      (batches : List Times) (s : Search)
      → Holds range s
      → IsDescribed b segment (block_keys segment b.first_row batches)
      → Finding.block range segment b batches s
        ≡ seen range (is_counting s) (block_keys segment b.first_row batches) s
  unfolding Finding.block
  block_exact batches s h d =
      let ks = block_keys segment b.first_row batches in
      let whole = is_counting s && (not (is_filtered range) && inside b range.start range.end) in
      elim (Bool-cases (outside b range.start range.end)) [
        | inl out ↦ rw out (unseen range (is_counting s) ks s (outside_missed ks d out))
        | inr some_in ↦ rw some_in (elim (Bool-cases whole) [
          | inl all_in ↦
              let counting : is_counting s ≡ true = ground (arith, all_in) in
              rw all_in (
                rw counting (
                  read_or_skip false batches (with_matched (add_matched b.valid s.matched) s) h d.0
                  ∙ (counted_whole ks s d all_in ∙ ap (λ c. seen range c ks s) counting)))
          | inr not_all ↦
              let counting : (is_counting s && true) ≡ is_counting s = ground arith in
              rw not_all (
                read_or_skip (is_counting s && true) batches s h d.0
                ∙ ap (λ c. seen range c ks s) counting)
        ])
      ]
