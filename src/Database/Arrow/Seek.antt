-- ===== src/Database/Arrow/Seek.antt =====
-- database/src/arrow/seek.rs: one page over the segments of a table. A token is given decoded (its JSON
-- and base64 are libraries'), and a segment with its index, what its file holds, and its sidecar.
pub mod Pages
pub mod Reading
use runtime_rs.Base.{
  ℕ, ltb, ◌&&◌, not, if◌then◌else◌, Bool, true, false, List, [], ◌∷◌, Option, none, some, Str,
  str_eq, length,
}
use runtime_rs.Database.Arrow.Key.{Key}
use runtime_rs.Database.Arrow.Heap.{take, last}
use runtime_rs.Database.Arrow.Block as Index
use runtime_rs.Database.Arrow.Block.{Block, Bounds}
use runtime_rs.Database.Arrow.Search as Finding
use runtime_rs.Database.Arrow.Search.{Range, Search, Times}

-- key.rs. A total of -1, for a page that does not count, is `none`.
pub record Cursor : Type 0 where
  pub scope : Str
  pub total : Option ℕ
  pub after : Key

pub record Segment : Type 0 where
  pub name : Str
  pub bounds : Option Bounds
  pub columns_match : Bool
  pub blocks : List (Block × List Times)

-- A page, or the reason that there is none.
pub data Page : Type 0 where
  listed : List Key → Option Cursor → Option ℕ → Page
  other_query other_columns : Page

abbrev pub decode : Str → Option Cursor → Bool
decode scope none = true
decode scope (some cursor) = str_eq cursor.scope scope

abbrev pub after_of : Option Cursor → Option Key
after_of none = none
after_of (some cursor) = some cursor.after

abbrev pub is_first : Option Cursor → Bool
is_first none = true
is_first (some _) = false

abbrev pub total_of : Option Cursor → Option ℕ → Option ℕ
total_of none matched = matched
total_of (some cursor) matched = cursor.total

abbrev pub next_of : Str → Option ℕ → Bool → Option Key → Option Cursor
next_of scope total false final = none
next_of scope total true none = none
next_of scope total true (some key) = some (record { scope = scope; total = total; after = key })

abbrev pub is_outside : Range → Option Bounds → Bool
is_outside range none = false
is_outside range (some bounds) = Index.misses bounds range.start range.end

module _ (range : Range) where
  pub search_blocks : Str → List (Block × List Times) → Search → Search
  search_blocks name [] s = s
  search_blocks name ((b, batches) ∷ blocks) s =
      search_blocks name blocks (Finding.block range name b batches s)

  -- `none` where a segment was written with other columns.
  pub search_segments : List Segment → Search → Option Search
  unfolding search_blocks
  search_segments [] s = some s
  search_segments (segment ∷ segments) s =
      if is_outside range segment.bounds
      then search_segments segments s
      else if not segment.columns_match
      then none
      else search_segments segments (search_blocks segment.name segment.blocks s)

  pub finish : Str → Option Cursor → Search → Page
  finish scope cursor s =
      let total = total_of cursor s.matched in
      let items = take range.limit s.best in
      listed items (next_of scope total (ltb range.limit (length s.best)) (last items)) total

  pub page : Str → Option Cursor → Bool → List Segment → Page
  unfolding search_segments finish
  page scope cursor total segments =
      if not (decode scope cursor)
      then other_query
      else elim (search_segments segments
          (Finding.new range (after_of cursor) (is_first cursor && total))) [
            | none ↦ other_columns
            | some s ↦ finish scope cursor s
          ]
