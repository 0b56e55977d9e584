-- ===== src/Database/Arrow/Filter/Sizes.antt =====
-- How many rows a page after an offset has, and where the next page begins.
use runtime_rs.Base.{
  ℕ, ◌+◌, ◌-◌, ◌^◌, ◌%◌, ◌≤◌, ◌<◌, ◌≡◌, if◌then◌else◌, leb, ltb, Bool, List, [], ◌∷◌, some, none,
  arith, Bool-cases, inl, inr, length, zero, suc,
}
use runtime_rs.Base.Sorting.{insert_after, sort_onto, stable_sort}
use runtime_rs.Database.Arrow.Heap.{take}
use runtime_rs.Database.Arrow.Filter.{drop, has_more}

module _ {A : Type 0} where
  length-drop : (n : ℕ) (xs : List A) → length (drop n xs) ≤ length xs - n
  length-drop zero xs = omega arith
  length-drop (suc n) [] = ground arith
  length-drop (suc n) (x ∷ xs) = omega (arith, length-drop n xs)

  take-shorter : (n : ℕ) (xs : List A) → length (take n xs) ≤ length xs
  take-shorter zero xs = ground arith
  take-shorter (suc n) [] = ground arith
  take-shorter (suc n) (x ∷ xs) = ground (arith, take-shorter n xs)

  module _ (before : A → A → Bool) where
    length-insert_after : (y : A) (xs : List A) → length (insert_after before y xs) ≡ length xs + 1
    unfolding insert_after
    length-insert_after y [] = ground arith
    length-insert_after y (x ∷ xs) = ground (arith, length-insert_after y xs)

    length-sort_onto : (xs ys : List A) → length (sort_onto before xs ys) ≡ length xs + length ys
    unfolding sort_onto
    length-sort_onto xs [] = ground arith
    length-sort_onto xs (y ∷ ys) =
        omega (arith, length-sort_onto (insert_after before y xs) ys, length-insert_after y xs)

    pub length-page :
        (offset bound : ℕ) (rows : List A)
        → length (drop offset (take bound (stable_sort before rows))) ≤ length rows - offset
    length-page offset bound rows = omega (
      arith,
      length-drop offset (take bound (stable_sort before rows)),
      take-shorter bound (stable_sort before rows),
      length-sort_onto [] rows,
    )

pub wrapped_small : (n : ℕ) → n % 2 ^ 64 ≤ n
wrapped_small n = omega arith

-- Of usizes and an i64: from 2^63 on an offset is its own next one.
pub next_exact :
    (offset len total : ℕ)
    → offset < 2 ^ 64
    → total < 2 ^ 63
    → len ≤ total - offset
    → (let next = (offset + len) % 2 ^ 64 in if has_more next total then some next else none) ≡ (
        if leb (2 ^ 63) offset
        then some offset
        else if ltb (offset + len) total
        then some (offset + len)
        else none)
next_exact offset len total fits small h = elim (Bool-cases (leb (2 ^ 63) offset)) [
  | inl far ↦
      let same : (offset + len) % 2 ^ 64 ≡ offset = ground arith in rw same (ground (arith, far))
  | inr near ↦
      let same : (offset + len) % 2 ^ 64 ≡ offset + len = ground arith in
      rw same (ground (arith, near))
]
