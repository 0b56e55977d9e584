-- ===== src/Database/Arrow/Key.antt =====
-- database/src/arrow/key.rs: the order that rows are read in. A time is an i64, counted from the least.
use runtime_rs.Base.{
  ℕ, ◌≡◌, ◌≤◌, refl, ltb, ◌==◌, if◌then◌else◌, Bool, true, false, [], ◌∷◌, Str, arith,
}

-- `std::cmp::Ordering`
pub data Ordering : Type 0 where
  less equal greater : Ordering

pub record Key : Type 0 where
  pub time : ℕ
  pub segment : Str
  pub row : ℕ

abbrev pub reverse : Ordering → Ordering
reverse less = greater
reverse equal = equal
reverse greater = less

abbrev pub then_with : Ordering → Ordering → Ordering
then_with less next = less
then_with equal next = next
then_with greater next = greater

abbrev pub compare_numbers : ℕ → ℕ → Ordering
compare_numbers a b = if ltb a b then less else if a == b then equal else greater

-- Strings are compared byte by byte, which is the order of their code points.
unfoldable pub compare_texts : Str → Str → Ordering
compare_texts [] [] = equal
compare_texts [] (_ ∷ _) = less
compare_texts (_ ∷ _) [] = greater
compare_texts (a ∷ x) (b ∷ y) = let rest = compare_texts x y in then_with (compare_numbers a b) rest

unfoldable pub order : Key → Key → Bool → Ordering
unfolding compare_texts
order a b descending =
    let time = compare_numbers a.time b.time in
    then_with (if descending then reverse time else time)
      (then_with (compare_texts a.segment b.segment) (compare_numbers a.row b.row))

abbrev pub is_less : Ordering → Bool
is_less less = true
is_less equal = false
is_less greater = false

abbrev pub is_greater : Ordering → Bool
is_greater less = false
is_greater equal = false
is_greater greater = true

texts_reverse : (x y : Str) → compare_texts y x ≡ reverse (compare_texts x y)
unfolding compare_texts
texts_reverse [] [] = refl
texts_reverse [] (b ∷ y) = refl
texts_reverse (a ∷ x) [] = refl
texts_reverse (a ∷ x) (b ∷ y) = ground (arith, texts_reverse x y)

texts_equal : (x y : Str) → compare_texts x y ≡ equal → x ≡ y
unfolding compare_texts
texts_equal [] [] h = refl
texts_equal [] (b ∷ y) h = ground (arith, h)
texts_equal (a ∷ x) [] h = ground (arith, h)
texts_equal (a ∷ x) (b ∷ y) h = ground (arith, h, texts_equal x y)

texts_trans :
    (x y z : Str) → compare_texts x y ≡ less → compare_texts y z ≡ less → compare_texts x z ≡ less
unfolding compare_texts
texts_trans [] [] z h g = ground (arith, h)
texts_trans [] (b ∷ y) [] h g = ground (arith, g)
texts_trans [] (b ∷ y) (c ∷ z) h g = refl
texts_trans (a ∷ x) [] z h g = ground (arith, h)
texts_trans (a ∷ x) (b ∷ y) [] h g = ground (arith, g)
texts_trans (a ∷ x) (b ∷ y) (c ∷ z) h g =
    ground (arith, h, g, texts_trans x y z, texts_equal x y, texts_equal y z)

-- The order as a strict one, for `descending`.
abbrev pub precedes : Bool → Key → Key → Bool
precedes descending a b = is_less (order a b descending)

pub order-reverse : (a b : Key) (d : Bool) → order b a d ≡ reverse (order a b d)
unfolding order
order-reverse a b d = ground (arith, texts_reverse a.segment b.segment)

pub precedes_irrefl : (d : Bool) (a : Key) → precedes d a a ≡ false
unfolding order
precedes_irrefl d a = ground (arith, texts_reverse a.segment a.segment)

pub precedes_trans :
    (d : Bool) (a b c : Key) → precedes d a b ≡ true → precedes d b c ≡ true → precedes d a c ≡ true
unfolding order
precedes_trans d a b c h g = ground (
  arith,
  h,
  g,
  texts_trans a.segment b.segment c.segment,
  texts_equal a.segment b.segment,
  texts_equal b.segment c.segment,
)

pub precedes_total :
    (d : Bool) (a b : Key) → precedes d a b ≡ false → precedes d b a ≡ false → a ≡ b
unfolding order
precedes_total d a b h g =
    ground (arith, h, g, texts_equal a.segment b.segment, texts_reverse a.segment b.segment)

pub greater_precedes : (d : Bool) (a b : Key) → is_greater (order a b d) ≡ precedes d b a
greater_precedes d a b = ground (arith, order-reverse a b d)

-- In a segment, rows are ranked by time, and then by their numbers.
pub ranked_within :
    (d : Bool) (a b : Key)
    → a.segment ≡ b.segment
    → (d ≡ true → b.time ≤ a.time)
    → (d ≡ false → a.time ≤ b.time)
    → a.row ≤ b.row
    → precedes d b a ≡ false
unfolding order
ranked_within d a b same down up rows =
    ground (arith, same, down, up, rows, texts_reverse b.segment b.segment)
