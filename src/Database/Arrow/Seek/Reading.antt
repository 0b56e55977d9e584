-- ===== src/Database/Arrow/Seek/Reading.antt =====
-- Reading a table page by page.
use Prim.Native.Nat.{zero, suc}
use runtime_rs.Base.{
  ℕ, ◌≡◌, ◌≤◌, ◌<◌, refl, ap, sym, ◌∙◌, ◌+◌, ◌++◌, ltb, ◌&&◌, Bool, true, List, [], ◌∷◌, Option,
  none, some, Str, str_eq_refl, length, arith, All, Bool-cases, inl, inr,
}
use runtime_rs.Database.Arrow.Key.{
  Key, precedes, precedes_irrefl, precedes_trans, precedes_total, greater_precedes,
}
use runtime_rs.Database.Arrow.Heap.{take, skip, last, sort, take-skip, take-short}
use runtime_rs.Database.Arrow.Gather.{filter, filter-All}
use runtime_rs.Database.Arrow.Strict.{
  IsDistinct, filter-IsDistinct, filter-filter, filter-sort, filter_beyond, sort-IsStrict, IsStrict,
  last-All, All-take, All-sort,
}
use runtime_rs.Database.Arrow.Search as Finding
use runtime_rs.Database.Arrow.Search.{Range}
use runtime_rs.Database.Arrow.Search.Finds.{target}
use runtime_rs.Database.Arrow.Seek
use runtime_rs.Database.Arrow.Seek.{
  Cursor, Segment, Page, listed, other_query, other_columns, after_of, next_of, decode,
}
use runtime_rs.Database.Arrow.Seek.Pages.{IsIndexed, table, hits, page_exact, items_of}

-- What a reader has of a page, and of the pages that its token leads to.
abbrev pub follow : (Cursor → List Key) → Page → List Key
follow rest (listed items none total) = items
follow rest (listed items (some token) total) = items ++ rest token
follow rest other_query = []
follow rest other_columns = []

-- A reader that follows the tokens; it counts on the first page if it is told to.
abbrev pub read_all : ℕ → Range → Str → Option Cursor → Bool → List Segment → List Key
read_all zero range scope cursor counting segments = []
read_all (suc fuel) range scope cursor counting segments =
    follow (λ token. read_all fuel range scope (some token) counting segments)
      (Seek.page range scope cursor counting segments)

module _ (range : Range) (rows : List Key) (distinct : IsDistinct rows) where
  abbrev lt : Key → Key → Bool
  lt = precedes range.descending

  hits-IsStrict : (after : Option Key) → IsStrict lt (hits range after rows)
  hits-IsStrict after =
      sort-IsStrict lt (precedes_irrefl range.descending) (precedes_trans range.descending)
        (precedes_total range.descending) (filter (target range after) rows)
        (filter-IsDistinct (target range after) rows distinct)

  -- Past a row that is past the cursor itself.
  past_both :
      (after : Option Key) (a x : Key)
      → Finding.after_cursor range after a ≡ true
      → target range (some a) x ≡ target range after x && lt a x
  unfolding Finding.after_cursor
  past_both none a x h = ground (arith, greater_precedes range.descending x a)
  past_both (some b) a x h = ground (
    arith,
    h,
    greater_precedes range.descending x a,
    greater_precedes range.descending x b,
    greater_precedes range.descending a b,
    precedes_trans range.descending b a x,
  )

  hits-All : (after : Option Key) → All (λ k. target range after k ≡ true) (hits range after rows)
  hits-All after =
      All-sort lt (precedes_irrefl range.descending) (precedes_trans range.descending)
        (precedes_total range.descending) (λ k. target range after k ≡ true)
        (filter (target range after) rows) (filter-All (target range after) rows)

  -- What is left after the last row of a page.
  hits_beyond :
      (after : Option Key) (a : Key)
      → last (items_of range after rows) ≡ some a
      → hits range (some a) rows ≡ skip range.limit (hits range after rows)
  hits_beyond after a e =
      let d = range.descending in
      let found : target range after a ≡ true =
        last-All (λ k. target range after k ≡ true) a (items_of range after rows)
          (All-take (λ k. target range after k ≡ true) range.limit (hits range after rows)
            (hits-All after))
          e in
      let past : Finding.after_cursor range after a ≡ true = ground (arith, found) in
      ap (sort lt) (
        sym (
          filter-filter (target range after) (lt a) (target range (some a)) rows
            (λ x. past_both after a x past)))
      ∙ (sym (
            filter-sort lt (precedes_irrefl d) (precedes_trans d) (precedes_total d) (lt a)
              (filter (target range after) rows))
          ∙ filter_beyond lt (precedes_irrefl d) (precedes_trans d) (precedes_total d) range.limit a
              (hits range after rows) (hits-IsStrict after) e)

-- A page that is not empty has a last row, and leaves fewer rows.
last_there :
    {A : Type 0} (n : ℕ) (xs : List A)
    → n < length xs
    → 0 < n
    → ((a : A) × (last (take n xs) ≡ some a)) × (length (skip n xs) + 1 ≤ length xs)
last_there zero xs h z = absurd (ground (arith, z))
last_there (suc n) [] h z = absurd (ground (arith, h))
last_there (suc zero) (x ∷ xs) h z = ((x, refl), ground arith)
last_there (suc (suc n)) (x ∷ []) h z = absurd (ground (arith, h))
last_there (suc (suc n)) (x ∷ y ∷ ys) h z =
    let rest = last_there (suc n) (y ∷ ys) (ground (arith, h)) (ground arith) in
    (rest.0, ground (arith, rest.1))

module _ (range : Range) (segments : List Segment) (indexed : All IsIndexed segments)
    (distinct : IsDistinct (table segments)) where
  -- If the segments' indexes are right and no two rows have one place, then a reader that follows the
  -- tokens of a query from any cursor, in pages of one row or more, gets each row once that is in the
  -- window, satisfies the predicates and lies past the cursor, in the order of the read, and needs no
  -- more pages than there are such rows, and one.
  pub read_all_exact :
      (fuel : ℕ) (scope : Str) (cursor : Option Cursor) (counting : Bool)
      → decode scope cursor ≡ true
      → 0 < range.limit
      → length (hits range (after_of cursor) (table segments)) < fuel
      → read_all fuel range scope cursor counting segments
        ≡ hits range (after_of cursor) (table segments)
  read_all_exact zero scope cursor counting same some_limit enough = absurd (ground (arith, enough))
  read_all_exact (suc fuel) scope cursor counting same some_limit enough =
      let rows = table segments in
      let after = after_of cursor in
      let all = hits range after rows in
      let items = items_of range after rows in
      let rest : Cursor → List Key =
        λ token. read_all fuel range scope (some token) counting segments in
      ap (follow rest) (page_exact range scope cursor counting segments indexed same)
      ∙ elim (Bool-cases (ltb range.limit (length all))) [
        | inr over ↦ rw over (take-short range.limit all (ground (arith, over)))
        | inl more ↦
            let there = last_there range.limit all (ground (arith, more)) some_limit in
            let final = there.0.0 in
            let beyond = hits_beyond range rows distinct after final there.0.1 in
            rw more (
              rw (there.0.1) (
                ap (λ xs. items ++ xs)
                  (read_all_exact fuel scope
                      (some (record { scope = scope; total = _; after = final })) counting
                      (str_eq_refl scope) some_limit
                      (ground (arith, enough, there.1, ap length beyond))
                    ∙ beyond)
                ∙ take-skip range.limit all))
      ]
