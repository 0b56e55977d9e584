-- ===== src/Database/Arrow/Tests.antt =====
-- Pages of a small table.
use runtime_rs.Base.{
  ◌≡◌, refl, ltb, true, false, List, [], ◌∷◌, ◌++◌, none, some, codes, length, arith, All,
}
use runtime_rs.Database.Arrow.Key.{order}
use runtime_rs.Database.Arrow.Heap
use runtime_rs.Database.Arrow.Search as Finding
use runtime_rs.Database.Arrow.Heap.{take, last}
use runtime_rs.Database.Arrow.Block.{Block, last_row}
use runtime_rs.Database.Arrow.Search.{Range, Times, count, keep}
use runtime_rs.Database.Arrow.Strict.{IsDistinct}
use runtime_rs.Database.Arrow.Seek
use runtime_rs.Database.Arrow.Index as Growing
use runtime_rs.Database.Arrow.Index.{Held}
use runtime_rs.Database.Arrow.Index.Grows.{times_of, next_row}
use runtime_rs.Database.Arrow.Index.Reads.{File}
use runtime_rs.Database.Arrow.Index.Extends.{Laid, extended_exact}
use runtime_rs.Database.Arrow.Index.Absorbs.{IsRight}
use runtime_rs.Database.Arrow.Search.Reads.{block_keys}
use runtime_rs.Database.Arrow.Seek.{Segment, listed, next_of}
use runtime_rs.Database.Arrow.Seek.Pages.{IsIndexed, rows_of, table, hits, page_exact}
use runtime_rs.Database.Arrow.Seek.Reading.{read_all, read_all_exact}

abbrev range : Range
range = record { start = 6; end = 100; limit = 1; descending = false; predicates = [] }

-- Two segments whose times overlap.
abbrev early : Segment
early = record {
  name = codes "a";
  bounds = some (record { min = 5; max = 9; rows = 2 });
  columns_match = true;
  blocks =
      (
        record { offset = 10; end = 20; first_row = 0; rows = 2; valid = 2; min = 5; max = 9 },
        (some 5 ∷ some 9 ∷ []) ∷ [],
      )
      ∷ [];
}

abbrev late : Segment
late = record {
  name = codes "b";
  bounds = none;
  columns_match = true;
  blocks =
      (
        record { offset = 10; end = 20; first_row = 0; rows = 2; valid = 1; min = 7; max = 7 },
        (none ∷ []) ∷ (some 7 ∷ []) ∷ [],
      )
      ∷ [];
}

abbrev segments : List Segment
segments = early ∷ late ∷ []

segments-IsIndexed : All IsIndexed segments
unfolding last_row
segments-IsIndexed = ground arith

segments-IsDistinct : IsDistinct (table segments)
segments-IsDistinct = ground arith

page_exact_example :
    Seek.page range (codes "q") none true segments
    ≡ listed
        (take 1 (hits range none (table segments)))
        (next_of
          (codes "q")
          (some (count (keep range) (table segments)))
          (ltb 1 (length (hits range none (table segments))))
          (last (take 1 (hits range none (table segments)))))
        (some (count (keep range) (table segments)))
page_exact_example = page_exact range (codes "q") none true segments segments-IsIndexed refl

read_all_exact_example :
    read_all 4 range (codes "q") none true segments ≡ hits range none (table segments)
unfolding Heap.sort Heap.insert order Finding.after_cursor
read_all_exact_example =
    read_all_exact range segments segments-IsIndexed segments-IsDistinct 4 (codes "q") none true
      refl (ground arith) (ground arith)

-- A segment with one batch in a short block, and another batch that has arrived.
abbrev known : File
known = ((some 5 ∷ []), 20) ∷ []

abbrev arrived : File
arrived = ((some 9 ∷ none ∷ []), 30) ∷ []

abbrev short : Block
short = record { offset = 10; end = 20; first_row = 0; rows = 1; valid = 1; min = 5; max = 5 }

abbrev indexed : List Held
indexed = (short, (some 5 ∷ []) ∷ []) ∷ []

indexed-IsRight : All (IsRight (codes "a")) indexed
unfolding last_row
indexed-IsRight = ground arith

extended_exact_example :
    let grown = Growing.extended 20 indexed arrived in
    Laid 10 (known ++ arrived) grown
    × All (IsRight (codes "a")) grown
    × All (λ h. Growing.read 10 (known ++ arrived) h.0 ≡ h.1) grown
    × (rows_of (codes "a") grown
        ≡ rows_of (codes "a") indexed
          ++ block_keys (codes "a") (next_row (codes "a") indexed) (times_of arrived))
extended_exact_example =
    extended_exact (codes "a") 10 known arrived indexed (ground arith)
      (known, [], refl, refl, ground arith, refl, refl, refl) indexed-IsRight
