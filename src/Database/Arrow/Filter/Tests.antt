-- ===== src/Database/Arrow/Filter/Tests.antt =====
-- Database.Arrow.Filter at concrete inputs: rows with a time alone.
use runtime_rs.Base.{
  ℕ, ◌+◌, ◌*◌, ◌^◌, leb, arith, ◌≡◌, ◌≤◌, refl, if◌then◌else◌, ltb, true, List, [], ◌∷◌, some, none,
  codes, length, str_eq,
}
use runtime_rs.Base.Assoc
use runtime_rs.Base.Sorting.{sort_onto}
use runtime_rs.Base.Assoc.{Map}
use runtime_rs.Database.Arrow.Key.{compare_numbers}
use runtime_rs.Database.Arrow.Filter
use runtime_rs.Database.Arrow.Filter.{Json, Resource, Range, keep, by_time, timestamp}
use runtime_rs.Database.Arrow.Filter.Pages.{matching, sorted_page, offset_page_exact, kept_bounded}

program : Unit {0}
unfolding Filter.page_at_offset Filter.keep sort_onto Assoc.get str_eq
program = tt

abbrev numbers : Json ℕ
numbers = record {
  as_str = λ n. none;
  as_i64 = some;
  as_u64 = some;
  as_bool = λ n. none;
  partial_cmp = λ a b. some (compare_numbers a b);
}

abbrev events : Resource
events = record {
  time_column = some (codes "t");
  kinds = (codes "t", timestamp) ∷ (codes "n", Filter.int) ∷ [];
}

-- Two rows a page, the newest first, with n at least 5.
abbrev window : Range ℕ
window = record {
  start = 10;
  end = 20;
  limit = 2;
  descending = true;
  predicates = record { column = codes "n"; comparison = Filter.ge; value = 5 } ∷ [];
}

abbrev row : ℕ → ℕ → Map ℕ
row t n = (codes "t", t) ∷ (codes "n", n) ∷ []

abbrev batches : List (List (Map ℕ))
batches =
    (row 11 7 ∷ row 12 3 ∷ row 13 5 ∷ [])
    ∷ (row 13 6 ∷ row 20 9 ∷ row 19 8 ∷ [])
    ∷ (row 15 9 ∷ [])
    ∷ []

-- The two rows of one time keep their order.
second_page :
    Filter.page_at_offset (keep numbers events window) (by_time numbers events window) 2 2 batches
    ≡ (row 13 5 ∷ row 13 6 ∷ [], some 4, 5)
unfolding program
second_page = refl

offset_page_exact_example :
    Filter.page_at_offset (keep numbers events window) (by_time numbers events window) 2 2 batches
    ≡ (
      sorted_page numbers events window 2 batches,
      if leb (2 ^ 63) 2
          then some 2
          else if ltb
              (2 + length (sorted_page numbers events window 2 batches))
              (length (matching numbers events window batches))
          then some (2 + length (sorted_page numbers events window 2 batches))
          else none,
      length (matching numbers events window batches),
    )
offset_page_exact_example =
    offset_page_exact numbers events window 2 batches (ground arith) (ground arith)

-- A token of 2^63 is answered with itself.
far_page :
    Filter.page_at_offset
      (keep numbers events window)
      (by_time numbers events window)
      2
      (2 ^ 63)
      batches
    ≡ ([], some (2 ^ 63), 5)
unfolding program
far_page = refl

kept_bounded_example :
    length
      (Filter.push_all
        (keep numbers events window)
        (by_time numbers events window)
        2
        2
        batches
        (Filter.new (keep numbers events window) (by_time numbers events window) 2 2)).kept
    ≤ 2 * (2 + 2)
kept_bounded_example = kept_bounded numbers events window 2 batches
