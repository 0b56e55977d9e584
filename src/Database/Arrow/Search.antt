-- ===== src/Database/Arrow/Search.antt =====
-- database/src/arrow/search.rs: one page's search. A row is named by its key; what it holds is looked
-- at by the predicates, which are tests of the row that a key names.
pub mod Finds
pub mod Reads
pub mod Blocks
use Prim.Native.Nat.{zero, suc}
use runtime_rs.Base.{
  ℕ, ◌+◌, ltb, leb, ◌&&◌, ◌||◌, not, if◌then◌else◌, Bool, true, false, List, [], ◌∷◌, Option, none,
  some, Str, length,
}
use runtime_rs.Database.Arrow.Key.{Key, order, precedes, is_less, is_greater}
use runtime_rs.Database.Arrow.Heap as Heap
use runtime_rs.Database.Arrow.Heap.{take, skip, last, sort}
use runtime_rs.Database.Arrow.Gather.{filter}
use runtime_rs.Database.Arrow.Block as Index
use runtime_rs.Database.Arrow.Block.{Block}

-- store/window.rs: a half-open window.
pub record Range : Type 0 where
  pub start : ℕ
  pub end : ℕ
  pub limit : ℕ
  pub descending : Bool
  pub predicates : List (Key → Bool)

-- The timestamps of a batch, `none` for a null.
abbrev pub Times : Type 0
Times = List (Option ℕ)

pub record Search : Type 0 where
  pub after : Option Key
  pub capacity : ℕ
  pub best : List Key
  pub matched : Option ℕ

abbrev pub satisfies : List (Key → Bool) → Key → Bool
satisfies [] k = true
satisfies (p ∷ ps) k = p k && satisfies ps k

abbrev pub contains : Range → Key → Bool
contains range k = leb range.start k.time && ltb k.time range.end

-- filter.rs
abbrev pub keep : Range → Key → Bool
keep range k = contains range k && satisfies range.predicates k

abbrev pub is_filtered : Range → Bool
is_filtered range = elim range.predicates [ [] ↦ false | p ∷ ps ↦ true ]

abbrev pub keys_of : Str → ℕ → Times → List Key
keys_of segment row [] = []
keys_of segment row (none ∷ times) = keys_of segment (row + 1) times
keys_of segment row (some t ∷ times) =
    record { time = t; segment = segment; row = row } ∷ keys_of segment (row + 1) times

abbrev pub count : (Key → Bool) → List Key → ℕ
count p [] = 0
count p (k ∷ ks) = if p k then count p ks + 1 else count p ks

abbrev pub add_matched : ℕ → Option ℕ → Option ℕ
add_matched n none = none
add_matched n (some m) = some (m + n)

unfoldable pub new : Range → Option Key → Bool → Search
new range after counting = record {
  after = after;
  capacity = range.limit + 1;
  best = [];
  matched = if counting then some 0 else none;
}

abbrev pub is_counting : Search → Bool
is_counting s = elim s.matched [ none ↦ false | some n ↦ true ]

module _ (range : Range) where
  unfoldable pub after_cursor : Option Key → Key → Bool
  after_cursor none k = true
  after_cursor (some after) k = is_greater (order k after range.descending)

  -- The page has room for the key, or a worse one.
  pub beats : Search → Key → Bool
  beats s k =
      ltb (length s.best) s.capacity
      || elim (last s.best) [ none ↦ true | some worst ↦ is_less (order k worst range.descending) ]

  pub wanted : Search → Key → Bool
  unfolding after_cursor beats
  wanted s k = after_cursor s.after k && beats s k

  pub needs : Search → Block → Str → Bool
  unfolding after_cursor beats
  needs s block segment =
      let first = if range.descending then block.max else block.min in
      let final = if range.descending then block.min else block.max in
      after_cursor s.after (record { time = final; segment = segment; row = Index.last_row block })
      && beats s (record { time = first; segment = segment; row = block.first_row })

  pub push : Search → Key → Search
  push s k = record s { best = Heap.push (precedes range.descending) s.capacity k s.best }

  pub offer : Search → Key → Search
  unfolding wanted push
  offer s k = if keep range k && wanted s k then push s k else s

  pub offer_each : Search → List Key → Search
  unfolding offer
  offer_each s [] = s
  offer_each s (k ∷ ks) = offer_each (offer s k) ks

  -- Chunk by chunk, up to one whose best is not wanted. `fuel` is at least the number of the keys.
  pub offer_chunks : ℕ → ℕ → Search → List Key → Search
  unfolding offer_each wanted
  offer_chunks zero size s ks = s
  offer_chunks (suc fuel) size s [] = s
  offer_chunks (suc fuel) size s (k ∷ ks) =
      let rest = offer_chunks fuel size (offer_each s (take size (k ∷ ks))) (skip size (k ∷ ks)) in
      if wanted s k then rest else s

  pub max : ℕ → ℕ → ℕ
  max a b = if ltb a b then b else a

  pub batch : Str → Bool → ℕ → Times → Search → Search
  unfolding offer_each offer_chunks after_cursor max
  batch segment counting first times s =
      let rows = filter (contains range) (keys_of segment first times) in
      if counting && is_filtered range
      then record (offer_each s rows) { matched = add_matched (count (keep range) rows) s.matched }
      else let counted = if counting then add_matched (length rows) s.matched else s.matched in
        let ranked = sort (precedes range.descending) (filter (after_cursor s.after) rows) in
        offer_chunks (length ranked) (max s.capacity 256) (record s { matched = counted }) ranked

  -- index.rs, `read`: every batch of a block, with the row that it starts at.
  pub read : Str → Bool → ℕ → List Times → Search → Search
  unfolding batch
  read segment counting row [] s = s
  read segment counting row (times ∷ batches) s =
      read segment counting (row + length times) batches (batch segment counting row times s)

  pub block : Str → Block → List Times → Search → Search
  unfolding needs read
  block segment b batches s =
      let whole =
        is_counting s && (not (is_filtered range) && Index.inside b range.start range.end) in
      let counted = if whole then record s { matched = add_matched b.valid s.matched } else s in
      let counting = is_counting s && not whole in
      if Index.outside b range.start range.end
      then s
      else if counting || needs counted b segment
      then read segment counting b.first_row batches counted
      else counted
