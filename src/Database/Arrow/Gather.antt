-- ===== src/Database/Arrow/Gather.antt =====
-- The least elements of a stream: what a bounded heap holds in the end does not depend on the order in
-- which it was filled.
use Prim.Native.Nat.{zero, suc}
use runtime_rs.Base.{
  ℕ, ◌≡◌, ◌≤◌, refl, ap, ◌∙◌, if◌then◌else◌, Bool, true, false, List, [], ◌∷◌, ◌++◌, arith, length,
  All, Bool-cases, inl, inr,
}
use runtime_rs.Database.Arrow.Heap.{
  take, insert, sort, length-take, take-IsRanked, IsRanked, insert_swaps, take-insert,
  insert-IsRanked,
}

module _ {K : Type 0} where
  abbrev pub filter : (K → Bool) → List K → List K
  filter p [] = []
  filter p (x ∷ xs) = if p x then x ∷ filter p xs else filter p xs

  module _ (lt : K → K → Bool) where
    abbrev pub step : (K → Bool) → ℕ → K → List K → List K
    step p n x best = if p x then take n (insert lt x best) else best

    unfoldable pub gather : (K → Bool) → ℕ → List K → List K → List K
    gather p n [] best = best
    gather p n (x ∷ xs) best = gather p n xs (step p n x best)

    abbrev pub IsHeap : ℕ → List K → Type 0
    IsHeap n best = IsRanked lt best × (length best ≤ n)

    pub gather-append :
        (p : K → Bool) (n : ℕ) (xs ys best : List K)
        → gather p n (xs ++ ys) best ≡ gather p n ys (gather p n xs best)
    unfolding gather
    gather-append p n [] ys best = refl
    gather-append p n (x ∷ xs) ys best = gather-append p n xs ys (step p n x best)

    -- Elements that the heap would not keep may be passed over.
    pub gather_idle :
        (p : K → Bool) (n : ℕ) (xs best : List K)
        → All (λ x. step p n x best ≡ best) xs
        → gather p n xs best ≡ best
    unfolding gather
    gather_idle p n [] best h = refl
    gather_idle p n (x ∷ xs) best h = ap (gather p n xs) h.0 ∙ gather_idle p n xs best h.1

    module _ (irrefl : (a : K) → lt a a ≡ false)
        (trans : (a b c : K) → lt a b ≡ true → lt b c ≡ true → lt a c ≡ true)
        (total : (a b : K) → lt a b ≡ false → lt b a ≡ false → a ≡ b) where
      pub step-IsHeap :
          (p : K → Bool) (n : ℕ) (x : K) (best : List K)
          → IsHeap n best
          → IsHeap n (step p n x best)
      step-IsHeap p n x best h = elim (Bool-cases (p x)) [
        | inl through ↦ rw through (
          take-IsRanked lt irrefl trans total n (insert lt x best)
              (insert-IsRanked lt irrefl trans total x best h.0),
          length-take n (insert lt x best),
        )
        | inr stopped ↦ rw stopped h
      ]

      pub gather-IsHeap :
          (p : K → Bool) (n : ℕ) (xs best : List K) → IsHeap n best → IsHeap n (gather p n xs best)
      unfolding gather
      gather-IsHeap p n [] best h = h
      gather-IsHeap p n (x ∷ xs) best h =
          gather-IsHeap p n xs (step p n x best) (step-IsHeap p n x best h)

      step_swaps :
          (p : K → Bool) (n : ℕ) (x y : K) (best : List K)
          → step p n x (step p n y best) ≡ step p n y (step p n x best)
      step_swaps p n x y best = ground (
        arith,
        take-insert lt n x (insert lt y best),
        take-insert lt n y (insert lt x best),
        insert_swaps lt irrefl trans total x y best,
      )

      pub gather-step :
          (p : K → Bool) (n : ℕ) (x : K) (xs best : List K)
          → gather p n xs (step p n x best) ≡ step p n x (gather p n xs best)
      unfolding gather
      gather-step p n x [] best = refl
      gather-step p n x (y ∷ ys) best =
          ap (gather p n ys) (step_swaps p n y x best) ∙ gather-step p n x ys (step p n y best)

      gather-insert :
          (p : K → Bool) (n : ℕ) (x : K) (xs best : List K)
          → gather p n (insert lt x xs) best ≡ gather p n xs (step p n x best)
      unfolding gather insert
      gather-insert p n x [] best = refl
      gather-insert p n x (y ∷ ys) best = elim (Bool-cases (lt x y)) [
        | inl before ↦ rw before refl
        | inr after ↦ rw after (
            gather-insert p n x ys (step p n y best) ∙ ap (gather p n ys) (step_swaps p n x y best))
      ]

      -- Sorting the stream first changes nothing.
      pub gather-sort :
          (p : K → Bool) (n : ℕ) (xs best : List K)
          → gather p n (sort lt xs) best ≡ gather p n xs best
      unfolding gather sort
      gather-sort p n [] best = refl
      gather-sort p n (x ∷ xs) best =
          gather-insert p n x (sort lt xs) best ∙ gather-sort p n xs (step p n x best)

      -- What is gathered are the least of the elements that are let through, in order.
      pub gather_exact :
          (p : K → Bool) (n : ℕ) (xs : List K) → gather p n xs [] ≡ take n (sort lt (filter p xs))
      unfolding gather sort
      gather_exact p zero [] = refl
      gather_exact p (suc n) [] = refl
      gather_exact p n (x ∷ xs) =
          gather-step p n x xs []
          ∙ (ap (step p n x) (gather_exact p n xs)
              ∙ ground (arith, take-insert lt n x (sort lt (filter p xs))))

    -- What is not let through may be taken out before.
    pub gather-filter :
        (p q : K → Bool) (n : ℕ) (xs best : List K)
        → ((x : K) → q x ≡ false → p x ≡ false)
        → gather p n (filter q xs) best ≡ gather p n xs best
    unfolding gather
    gather-filter p q n [] best h = refl
    gather-filter p q n (x ∷ xs) best h = elim (Bool-cases (q x)) [
      | inl through ↦ rw through (gather-filter p q n xs (step p n x best) h)
      | inr stopped ↦ rw stopped (rw (h x stopped) (gather-filter p q n xs best h))
    ]

  pub filter-All : (q : K → Bool) (xs : List K) → All (λ x. q x ≡ true) (filter q xs)
  filter-All q [] = tt
  filter-All q (x ∷ xs) = elim (Bool-cases (q x)) [
    | inl through ↦ rw through (through, filter-All q xs)
    | inr stopped ↦ rw stopped (filter-All q xs)
  ]
