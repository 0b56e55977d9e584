-- ===== src/Database/Arrow/Seek/Pages.antt =====
-- What a page holds.
use runtime_rs.Base.{
  ◌≡◌, ◌≤◌, refl, ap, ◌∙◌, ◌+◌, ◌++◌, ltb, ◌&&◌, if◌then◌else◌, Bool, true, false, List, [], ◌∷◌,
  Option, none, some, Str, length, arith, All, Bool-cases, Option-cases, inl, inr,
}
use runtime_rs.Database.Arrow.Key.{Key, precedes, precedes_irrefl, precedes_trans, precedes_total}
use runtime_rs.Database.Arrow.Heap.{take, last, sort, take-one_more}
use runtime_rs.Database.Arrow.Gather.{filter, gather, gather_exact}
use runtime_rs.Database.Arrow.Block as Index
use runtime_rs.Database.Arrow.Block.{Block}
use runtime_rs.Database.Arrow.Search as Finding
use runtime_rs.Database.Arrow.Search.{Range, Search, Times, keep, count, add_matched, is_counting}
use runtime_rs.Database.Arrow.Search.Finds.{target, Holds, gathered-Holds}
use runtime_rs.Database.Arrow.Search.Reads.{seen, unseen, seen-append, block_keys}
use runtime_rs.Database.Arrow.Search.Blocks.{IsDescribed, block_exact}
use runtime_rs.Database.Arrow.Seek
use runtime_rs.Database.Arrow.Seek.{
  Cursor, Segment, Page, listed, after_of, is_first, total_of, next_of, is_outside, decode,
}

-- The rows of a segment and of a table.
abbrev pub rows_of : Str → List (Block × List Times) → List Key
rows_of name [] = []
rows_of name ((b, batches) ∷ blocks) = block_keys name b.first_row batches ++ rows_of name blocks

abbrev pub table : List Segment → List Key
table [] = []
table (segment ∷ segments) = rows_of segment.name segment.blocks ++ table segments

abbrev pub AreDescribed : Str → List (Block × List Times) → Type 0
AreDescribed name [] = Unit
AreDescribed name ((b, batches) ∷ blocks) =
    IsDescribed b name (block_keys name b.first_row batches) × AreDescribed name blocks

-- The index of a segment is right, and its sidecar, if there is one.
abbrev pub IsIndexed : Segment → Type 0
IsIndexed segment =
    (segment.columns_match ≡ true)
    × AreDescribed segment.name segment.blocks
    × ((bounds : Index.Bounds)
        → segment.bounds ≡ some bounds
        → All (λ k. (bounds.min ≤ k.time) × (k.time ≤ bounds.max))
            (rows_of segment.name segment.blocks))

module _ (range : Range) where
  seen-Holds :
      (counting : Bool) (ks : List Key) (s : Search)
      → Holds range s
      → Holds range (seen range counting ks s)
  seen-Holds counting ks s h = gathered-Holds range ks s h

  -- Counting goes on as it began.
  counting-seen :
      (ks : List Key) (s : Search) → is_counting (seen range (is_counting s) ks s) ≡ is_counting s
  counting-seen ks s = ground arith

  seen_then :
      (xs ys : List Key) (s : Search)
      → seen range
          (is_counting (seen range (is_counting s) xs s))
          ys
          (seen range (is_counting s) xs s)
        ≡ seen range (is_counting s) (xs ++ ys) s
  seen_then xs ys s =
      ap (λ c. seen range c ys (seen range (is_counting s) xs s)) (counting-seen xs s)
      ∙ seen-append range (is_counting s) xs ys s

  blocks_exact :
      (name : Str) (blocks : List (Block × List Times)) (s : Search)
      → Holds range s
      → AreDescribed name blocks
      → Seek.search_blocks range name blocks s ≡ seen range (is_counting s) (rows_of name blocks) s
  unfolding Seek.search_blocks gather
  blocks_exact name [] s h d = ground arith
  blocks_exact name ((b, batches) ∷ blocks) s h d =
      let ks = block_keys name b.first_row batches in
      let next = seen range (is_counting s) ks s in
      ap (Seek.search_blocks range name blocks) (block_exact range b name batches s h d.0)
      ∙ (blocks_exact name blocks next (seen-Holds (is_counting s) ks s h) d.1
          ∙ seen_then ks (rows_of name blocks) s)

  -- A segment whose sidecar lies outside the window has no row in it.
  misses_kept :
      (bounds : Index.Bounds) (ks : List Key)
      → All (λ k. (bounds.min ≤ k.time) × (k.time ≤ bounds.max)) ks
      → Index.misses bounds range.start range.end ≡ true
      → All (λ k. keep range k ≡ false) ks
  unfolding Index.misses
  misses_kept bounds [] h e = tt
  misses_kept bounds (k ∷ ks) h e = (ground (arith, h.0, e), misses_kept bounds ks h.1 e)

  is_outside-missed :
      (segment : Segment)
      → IsIndexed segment
      → is_outside range segment.bounds ≡ true
      → All (λ k. keep range k ≡ false) (rows_of segment.name segment.blocks)
  is_outside-missed segment d e = elim (Option-cases segment.bounds) [
    | inl absent ↦ absurd (ground (arith, absent, e))
    | inr (bounds, there) ↦
        misses_kept bounds (rows_of segment.name segment.blocks) (d.2 bounds there)
          (ground (arith, there, e))
  ]

  segments_exact :
      (segments : List Segment) (s : Search)
      → Holds range s
      → All IsIndexed segments
      → Seek.search_segments range segments s ≡ some (seen range (is_counting s) (table segments) s)
  unfolding Seek.search_segments gather
  segments_exact [] s h d = ground arith
  segments_exact (segment ∷ segments) s h d =
      let rows = rows_of segment.name segment.blocks in
      let next = seen range (is_counting s) rows s in
      let rest =
        segments_exact segments next (seen-Holds (is_counting s) rows s h) d.1
        ∙ ap some (seen_then rows (table segments) s) in
      elim (Bool-cases (is_outside range segment.bounds)) [
        | inl skipped ↦ rw skipped (
            ap (Seek.search_segments range segments)
              (unseen range (is_counting s) rows s (is_outside-missed segment d.0 skipped))
            ∙ rest)
        | inr read ↦ rw read (
            rw (d.0.0) (
              ap (Seek.search_segments range segments)
                (blocks_exact segment.name segment.blocks s h d.0.1)
              ∙ rest))
      ]

  -- The rows that a read from `after` has still to return, in the order of the read.
  abbrev pub hits : Option Key → List Key → List Key
  hits after rows = sort (precedes range.descending) (filter (target range after) rows)

  new-Holds :
      (after : Option Key) (counting : Bool) → Holds range (Finding.new range after counting)
  unfolding Finding.new
  new-Holds after counting = (tt, ground arith)

  searched :
      (after : Option Key) (counting : Bool) (rows : List Key)
      → let s = Finding.new range after counting in
        ((seen range (is_counting s) rows s).best ≡ take (range.limit + 1) (hits after rows))
        × ((seen range (is_counting s) rows s).matched
            ≡ (if counting then some (count (keep range) rows) else none))
  unfolding Finding.new
  searched after counting rows = (
    gather_exact (precedes range.descending) (precedes_irrefl range.descending)
        (precedes_trans range.descending) (precedes_total range.descending) (target range after)
        (range.limit + 1) rows,
    ground arith,
  )

  abbrev pub items_of : Option Key → List Key → List Key
  items_of after rows = take range.limit (hits after rows)

  finish_exact :
      (scope : Str) (cursor : Option Cursor) (s : Search) (after : Option Key) (rows : List Key)
      → s.best ≡ take (range.limit + 1) (hits after rows)
      → Seek.finish range scope cursor s
        ≡ listed
            (items_of after rows)
            (next_of scope
              (total_of cursor s.matched)
              (ltb range.limit (length (hits after rows)))
              (last (items_of after rows)))
            (total_of cursor s.matched)
  unfolding Seek.finish
  finish_exact scope cursor s after rows e =
      let shorter = take-one_more range.limit (hits after rows) in
      let total = total_of cursor s.matched in rw e (rw (shorter.0) (rw (shorter.1) refl))

  totals :
      (cursor : Option Cursor) (counting : Bool) (rows : List Key)
      → let s = Finding.new range (after_of cursor) (is_first cursor && counting) in
        total_of cursor (seen range (is_counting s) rows s).matched
        ≡ total_of cursor (if counting then some (count (keep range) rows) else none)
  totals none counting rows = (searched none counting rows).1
  totals (some cursor) counting rows = refl

  -- A page of segments whose indexes are right, for a token of the same query, holds the first rows in
  -- the order of the read, up to the limit, of those that lie in the window, satisfy the predicates and
  -- come after the token's; it has a token for the next page exactly if there are more, at its last
  -- row; and its total is the token's, or the number of all matching rows if it is asked for.
  pub page_exact :
      (scope : Str) (cursor : Option Cursor) (counting : Bool) (segments : List Segment)
      → All IsIndexed segments
      → decode scope cursor ≡ true
      → let rows = table segments in
        let items = take range.limit (hits (after_of cursor) rows) in
        let total = total_of cursor (if counting then some (count (keep range) rows) else none) in
        Seek.page range scope cursor counting segments
        ≡ listed items
            (next_of scope total
              (ltb range.limit (length (hits (after_of cursor) rows)))
              (last items))
            total
  unfolding Seek.page
  page_exact scope cursor counting segments d same =
      let rows = table segments in
      let after = after_of cursor in
      let asked = is_first cursor && counting in
      let s = Finding.new range after asked in
      let found = seen range (is_counting s) rows s in
      rw same (
        rw (segments_exact segments s (new-Holds after asked) d) (
          finish_exact scope cursor found after rows (searched after asked rows).0
          ∙ ap
              (λ total.
                listed (items_of after rows)
                  (next_of scope total (ltb range.limit (length (hits after rows)))
                    (last (items_of after rows)))
                  total)
              (totals cursor counting rows)))
