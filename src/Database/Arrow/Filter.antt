-- ===== src/Database/Arrow/Filter.antt =====
-- database/src/arrow/filter.rs: the evaluation of a window's predicates, the page after an offset that
-- is kept while batches stream in, and the pages by offset of pages.rs. JSON values are given by what
-- serde_json reads of them; an i64 is counted from the least, a float compared by its `partial_cmp`.
pub mod Sorted
pub mod Sizes
pub mod Pages
mod Tests
use runtime_rs.Base.{
  ℕ, ◌+◌, ◌*◌, ◌-◌, ◌^◌, ◌%◌, min, ltb, leb, ◌&&◌, ◌||◌, not, if◌then◌else◌, Bool, true, false,
  List, [], ◌∷◌, ◌++◌, Option, none, some, Str, length, zero, suc,
}
use runtime_rs.Base.Assoc.{Map, get}
use runtime_rs.Base.Sorting.{sort_onto, stable_sort}
use runtime_rs.Database.Arrow.Key.{Ordering, less, equal, greater, compare_numbers, compare_texts}
use runtime_rs.Database.Arrow.Heap.{take}
use runtime_rs.Database.Arrow.Gather.{filter}

pub data Kind : Type 0 where
  string int uint float bool enum timestamp : Kind

pub data Comparison : Type 0 where
  eq ne lt le gt ge : Comparison

pub record Json (V : Type 0) : Type 0 where
  pub as_str : V → Option Str
  pub as_i64 : V → Option ℕ
  pub as_u64 : V → Option ℕ
  pub as_bool : V → Option ℕ
  pub partial_cmp : V → V → Option Ordering

pub record Predicate (V : Type 0) : Type 0 where
  pub column : Str
  pub comparison : Comparison
  pub value : V

pub record Range (V : Type 0) : Type 0 where
  pub start : ℕ
  pub end : ℕ
  pub limit : ℕ
  pub descending : Bool
  pub predicates : List (Predicate V)

-- The columns of a resource that are looked up: its time column, and the kind of each.
pub record Resource : Type 0 where
  pub time_column : Option Str
  pub kinds : Map Kind

-- Compared where both readings are there.
abbrev pub both : {A : Type 0} → (A → A → Ordering) → Option A → Option A → Option Ordering
both cmp none b = none
both cmp (some a) none = none
both cmp (some a) (some b) = some (cmp a b)

abbrev pub admits : Comparison → Ordering → Bool
admits eq equal = true
admits eq _ = false
admits ne equal = false
admits ne _ = true
admits lt less = true
admits lt _ = false
admits le greater = false
admits le _ = true
admits gt greater = true
admits gt _ = false
admits ge less = false
admits ge _ = true

abbrev pub decided : Comparison → Option Ordering → Bool
decided comparison none = false
decided comparison (some order) = admits comparison order

abbrev pub inside : {V : Type 0} → Range V → Option ℕ → Bool
inside range none = false
inside range (some t) = leb range.start t && ltb t range.end

module _ {V : Type 0} (json : Json V) where
  pub compare : Kind → V → V → Option Ordering
  compare string a b = both compare_texts (json.as_str a) (json.as_str b)
  compare int a b = both compare_numbers (json.as_i64 a) (json.as_i64 b)
  compare enum a b = both compare_numbers (json.as_i64 a) (json.as_i64 b)
  compare timestamp a b = both compare_numbers (json.as_i64 a) (json.as_i64 b)
  compare uint a b = both compare_numbers (json.as_u64 a) (json.as_u64 b)
  compare float a b = json.partial_cmp a b
  compare bool a b = both compare_numbers (json.as_bool a) (json.as_bool b)

  -- What a predicate's column and the row's value come to, where both are there.
  abbrev pub ordered : Option Kind → Option V → V → Option Ordering
  ordered none value against = none
  ordered (some kind) none against = none
  ordered (some kind) (some value) against = compare kind value against

  pub holds : Resource → Map V → Predicate V → Bool
  unfolding compare
  holds res row p =
      decided p.comparison (ordered (get p.column res.kinds) (get p.column row) p.value)

  abbrev pub time_of : Resource → Map V → Option ℕ
  time_of res row = elim res.time_column [
    | none ↦ none
    | some time ↦ elim (get time row) [ none ↦ none | some value ↦ json.as_i64 value ]
  ]

  pub all_hold : Resource → Map V → List (Predicate V) → Bool
  unfolding holds
  all_hold res row [] = true
  all_hold res row (p ∷ predicates) =
      let rest = all_hold res row predicates in if holds res row p then rest else false

  pub keep : Resource → Range V → Map V → Bool
  unfolding all_hold
  keep res range row = inside range (time_of res row) && all_hold res row range.predicates

abbrev pub saturating_add : ℕ → ℕ → ℕ
saturating_add a b = min (a + b) (2 ^ 64 - 1)

module _ {ℓ} {A : Type ℓ} where
  abbrev pub drop : ℕ → List A → List A
  drop zero xs = xs
  drop (suc n) [] = []
  drop (suc n) (x ∷ xs) = drop n xs

-- The order that a page is sorted in: a row with no time counts as the least.
abbrev pub or_least : Option ℕ → ℕ
or_least none = 0
or_least (some t) = t

module _ {V : Type 0} (json : Json V) where
  abbrev pub by_time : Resource → Range V → Map V → Map V → Bool
  by_time res range a b =
      if range.descending
      then ltb (or_least (time_of json res b)) (or_least (time_of json res a))
      else ltb (or_least (time_of json res a)) (or_least (time_of json res b))

pub record Top (A : Type 0) : Type 0 where
  pub kept : List A
  pub matched : ℕ

-- `next as i64 < total`: from 2^63 on the number reads as negative. A total is an i64.
abbrev pub has_more : ℕ → ℕ → Bool
has_more next total = leb (2 ^ 63) next || ltb next total

-- Sums and products of usizes wrap, as they do where overflow is not checked.
-- `test` is `keep` and `before` the order of the window's rows.
module _ {A : Type 0} (test : A → Bool) (before : A → A → Bool) (limit : ℕ) (offset : ℕ) where
  pub new : Top A
  new = record { kept = []; matched = 0 }

  pub keep_count : ℕ
  keep_count = saturating_add offset limit

  pub compact : Top A → Top A
  unfolding keep_count
  compact top = record top { kept = take keep_count (stable_sort before top.kept) }

  pub push : List A → Top A → Top A
  unfolding compact
  push rows top =
      let grown = record top {
        kept = top.kept ++ filter test rows;
        matched = top.matched + (length (top.kept ++ filter test rows) - length top.kept);
      } in
      if ltb ((2 * keep_count) % 2 ^ 64) (length grown.kept) then compact grown else grown

  pub finish : Top A → List A × ℕ
  unfolding compact
  finish top = let kept = (compact top).kept in (drop (min offset (length kept)) kept, top.matched)

  -- `window` pushes the batches of the segments in their order.
  pub push_all : List (List A) → Top A → Top A
  unfolding push
  push_all [] top = top
  push_all (rows ∷ batches) top = push_all batches (push rows top)

  -- A page, the offset of the next one and the total.
  pub page_at_offset : List (List A) → List A × Option ℕ × ℕ
  unfolding push_all finish new
  page_at_offset batches =
      let (items, total) = finish (push_all batches new) in
      let next = (offset + length items) % 2 ^ 64 in
      (items, if has_more next total then some next else none, total)
