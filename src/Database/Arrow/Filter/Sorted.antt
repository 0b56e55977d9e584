-- ===== src/Database/Arrow/Filter/Sorted.antt =====
-- The least elements that may be kept of a stable sort.
use runtime_rs.Base.{
  ℕ, ◌≡◌, refl, sym, ap, ◌∙◌, Bool, true, false, List, [], ◌∷◌, arith, zero, suc, All, Bool-cases,
  inl, inr, min, length,
}
use runtime_rs.Database.Arrow.Heap.{take}
use runtime_rs.Base.Sorting.{
  insert_after, sort_onto, stable_sort, IsOrdered, sort_onto-IsOrdered, sort_onto-ordered,
}
use runtime_rs.Database.Arrow.Filter.{drop}

module _ {A : Type 0} where
  pub take-take : (n : ℕ) (xs : List A) → take n (take n xs) ≡ take n xs
  take-take zero xs = refl
  take-take (suc n) [] = refl
  take-take (suc n) (x ∷ xs) = ap (λ ys. x ∷ ys) (take-take n xs)

  take_again : (n : ℕ) (xs : List A) → take n (take (suc n) xs) ≡ take n xs
  take_again zero xs = refl
  take_again (suc n) [] = refl
  take_again (suc n) (x ∷ xs) = ap (λ ys. x ∷ ys) (take_again n xs)

  take-cons : (n : ℕ) (x : A) (xs : List A) → take n (x ∷ take n xs) ≡ take n (x ∷ xs)
  take-cons zero x xs = refl
  take-cons (suc n) x xs = ap (λ ys. x ∷ ys) (take_again n xs)

  pub drop-min : (n : ℕ) (xs : List A) → drop (min n (length xs)) xs ≡ drop n xs
  drop-min zero [] = refl
  drop-min zero (x ∷ xs) = ground arith
  drop-min (suc n) [] = ground arith
  drop-min (suc n) (x ∷ xs) =
      let e : min (suc n) (suc (length xs)) ≡ suc (min n (length xs)) = omega arith in
      ap (λ k. drop k (x ∷ xs)) e ∙ drop-min n xs

  module _ (before : A → A → Bool) where
    take-insert_after :
        (n : ℕ) (y : A) (xs : List A)
        → take n (insert_after before y (take n xs)) ≡ take n (insert_after before y xs)
    unfolding insert_after
    take-insert_after zero y xs = refl
    take-insert_after (suc n) y [] = refl
    take-insert_after (suc n) y (x ∷ xs) = elim (Bool-cases (before y x)) [
      | inl earlier ↦ rw earlier (ap (λ ys. y ∷ ys) (take-cons n x xs))
      | inr later ↦ rw later (ap (λ ys. x ∷ ys) (take-insert_after n y xs))
    ]

    -- What is beyond the least `n` so far never comes among them again.
    pub take-sort_onto :
        (n : ℕ) (sorted ys : List A)
        → take n (sort_onto before (take n sorted) ys) ≡ take n (sort_onto before sorted ys)
    unfolding sort_onto
    take-sort_onto n sorted [] = take-take n sorted
    take-sort_onto n sorted (y ∷ ys) =
        sym (take-sort_onto n (insert_after before y (take n sorted)) ys)
        ∙ (ap (λ best. take n (sort_onto before best ys)) (take-insert_after n y sorted)
            ∙ take-sort_onto n (insert_after before y sorted) ys)

    take-All : (P : A → Type 0) (n : ℕ) (xs : List A) → All P xs → All P (take n xs)
    take-All P zero xs h = tt
    take-All P (suc n) [] h = tt
    take-All P (suc n) (x ∷ xs) (h, k) = (h, take-All P n xs k)

    pub take-IsOrdered : (n : ℕ) (xs : List A) → IsOrdered before xs → IsOrdered before (take n xs)
    take-IsOrdered zero xs h = tt
    take-IsOrdered (suc n) [] h = tt
    take-IsOrdered (suc n) (x ∷ xs) (h, k) =
        (take-All (λ z. before z x ≡ false) n xs h, take-IsOrdered n xs k)

    -- Sorting the least elements again changes nothing.
    pub sort-take-sort :
        (asym : (a b : A) → before a b ≡ true → before b a ≡ false)
        (trans : (a b c : A) → before a b ≡ true → before b c ≡ true → before a c ≡ true) (n : ℕ)
        (xs : List A)
        → stable_sort before (take n (stable_sort before xs)) ≡ take n (stable_sort before xs)
    sort-take-sort asym trans n xs =
        sort_onto-ordered before [] (take n (stable_sort before xs)) (
          take-IsOrdered n (stable_sort before xs) (sort_onto-IsOrdered before asym trans [] xs tt))
