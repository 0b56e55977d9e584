-- ===== src/Database/Arrow/Heap.antt =====
-- A bounded heap of the least elements, `BinaryHeap` in the source, as a list in ascending order: the
-- top of the heap is the last element.
use Prim.Native.Nat.{zero, suc}
use runtime_rs.Base.{
  ℕ, ◌≡◌, ◌≤◌, refl, ap, ◌∙◌, ltb, ◌+◌, ◌++◌, if◌then◌else◌, Bool, true, false, List, [], ◌∷◌,
  Option, none, some, arith, length, All, Bool-cases, inl, inr,
}

module _ {A : Type 0} where
  abbrev pub take : ℕ → List A → List A
  take zero xs = []
  take (suc n) [] = []
  take (suc n) (x ∷ xs) = x ∷ take n xs

  abbrev pub skip : ℕ → List A → List A
  skip zero xs = xs
  skip (suc n) [] = []
  skip (suc n) (x ∷ xs) = skip n xs

  pub take-skip : (n : ℕ) (xs : List A) → take n xs ++ skip n xs ≡ xs
  take-skip zero xs = refl
  take-skip (suc n) [] = refl
  take-skip (suc n) (x ∷ xs) = ap (λ ys. x ∷ ys) (take-skip n xs)

  pub length-skip : (n : ℕ) (xs : List A) → length (skip n xs) ≤ length xs
  length-skip zero xs = ground arith
  length-skip (suc n) [] = ground arith
  length-skip (suc n) (x ∷ xs) = ground (arith, length-skip n xs)

  pub All-skip : (P : A → Type 0) (n : ℕ) (xs : List A) → All P xs → All P (skip n xs)
  All-skip P zero xs h = h
  All-skip P (suc n) [] h = tt
  All-skip P (suc n) (x ∷ xs) h = All-skip P n xs h.1

  abbrev pub last : List A → Option A
  last [] = none
  last (x ∷ []) = some x
  last (x ∷ y ∷ ys) = last (y ∷ ys)

  -- `BinaryHeap::pop`, whose element is not used.
  unfoldable pub pop : List A → List A
  pop [] = []
  pop (x ∷ []) = []
  pop (x ∷ y ∷ ys) = x ∷ pop (y ∷ ys)

  pub take-short : (n : ℕ) (xs : List A) → length xs ≤ n → take n xs ≡ xs
  take-short zero [] h = refl
  take-short zero (x ∷ xs) h = absurd (ground (arith, h))
  take-short (suc n) [] h = refl
  take-short (suc n) (x ∷ xs) h = ap (λ ys. x ∷ ys) (take-short n xs (ground (arith, h)))

  pop-take : (n : ℕ) (xs : List A) → length xs ≡ n + 1 → pop xs ≡ take n xs
  unfolding pop
  pop-take zero [] h = refl
  pop-take zero (x ∷ []) h = refl
  pop-take zero (x ∷ y ∷ ys) h = absurd (ground (arith, h))
  pop-take (suc n) [] h = refl
  pop-take (suc n) (x ∷ []) h = absurd (ground (arith, h))
  pop-take (suc n) (x ∷ y ∷ ys) h = ap (λ zs. x ∷ zs) (pop-take n (y ∷ ys) (ground (arith, h)))

  take-take : (n : ℕ) (xs : List A) → take n (take (suc n) xs) ≡ take n xs
  take-take zero xs = refl
  take-take (suc n) [] = refl
  take-take (suc n) (x ∷ xs) = ap (λ ys. x ∷ ys) (take-take n xs)

  more_kept : (n : ℕ) (xs : List A) → ltb n (length (take (suc n) xs)) ≡ ltb n (length xs)
  more_kept n [] = refl
  more_kept zero (x ∷ xs) = ground arith
  more_kept (suc n) (x ∷ xs) = ground (arith, more_kept n xs)

  -- One more than is asked for shows whether there are more.
  pub take-one_more :
      (n : ℕ) (xs : List A)
      → (take n (take (n + 1) xs) ≡ take n xs)
        × (ltb n (length (take (n + 1) xs)) ≡ ltb n (length xs))
  take-one_more n xs =
      let e : n + 1 ≡ suc n = ground arith in
      (
        ap (λ m. take n (take m xs)) e ∙ take-take n xs,
        ap (λ m. ltb n (length (take m xs))) e ∙ more_kept n xs,
      )

  pub length-take : (n : ℕ) (xs : List A) → length (take n xs) ≤ n
  length-take zero xs = ground arith
  length-take (suc n) [] = ground arith
  length-take (suc n) (x ∷ xs) = ground (arith, length-take n xs)

module _ {K : Type 0} (lt : K → K → Bool) where
  unfoldable pub insert : K → List K → List K
  insert x [] = x ∷ []
  insert x (y ∷ ys) = let rest = insert x ys in if lt x y then x ∷ y ∷ ys else y ∷ rest

  unfoldable pub sort : List K → List K
  unfolding insert
  sort [] = []
  sort (x ∷ xs) = insert x (sort xs)

  -- `push`, then `pop` where more than the capacity are kept.
  unfoldable pub push : ℕ → K → List K → List K
  unfolding insert pop
  push capacity x best =
      let more = insert x best in if ltb capacity (length more) then pop more else more

  abbrev pub IsRanked : List K → Type 0
  IsRanked [] = Unit
  IsRanked (x ∷ xs) = All (λ y. lt y x ≡ false) xs × IsRanked xs

  pub skip-IsRanked : (n : ℕ) (xs : List K) → IsRanked xs → IsRanked (skip n xs)
  skip-IsRanked zero xs h = h
  skip-IsRanked (suc n) [] h = tt
  skip-IsRanked (suc n) (x ∷ xs) h = skip-IsRanked n xs h.1

  length-insert : (x : K) (xs : List K) → length (insert x xs) ≡ length xs + 1
  unfolding insert
  length-insert x [] = refl
  length-insert x (y ∷ ys) = ground (arith, length-insert x ys)

  pub push-take :
      (n : ℕ) (x : K) (best : List K) → length best ≤ n → push n x best ≡ take n (insert x best)
  unfolding push
  push-take n x best h =
      ground (arith, length-insert x best, pop-take n (insert x best), take-short n (insert x best))

  -- The heap keeps what it would of all.
  pub take-insert :
      (n : ℕ) (x : K) (xs : List K) → take n (insert x (take n xs)) ≡ take n (insert x xs)
  unfolding insert
  take-insert zero x xs = refl
  take-insert (suc n) x [] = refl
  take-insert (suc n) x (y ∷ ys) = ground (arith, take-insert n x ys, take-take n (y ∷ ys))

  module _ (irrefl : (a : K) → lt a a ≡ false)
      (trans : (a b c : K) → lt a b ≡ true → lt b c ≡ true → lt a c ≡ true)
      (total : (a b : K) → lt a b ≡ false → lt b a ≡ false → a ≡ b) where
    pub insert_swaps : (x y : K) (xs : List K) → insert x (insert y xs) ≡ insert y (insert x xs)
    unfolding insert
    insert_swaps x y [] = ground (arith, trans x y x, irrefl x, total x y)
    insert_swaps x y (z ∷ zs) =
        ground
          (arith, insert_swaps x y zs, trans x y x, trans x y z, trans y x z, irrefl x, total x y)

    pub All-insert : (P : K → Type 0) (x : K) (xs : List K) → P x → All P xs → All P (insert x xs)
    unfolding insert
    All-insert P x [] p h = (p, tt)
    All-insert P x (y ∷ ys) p h = elim (Bool-cases (lt x y)) [
      | inl before ↦ rw before (p, h)
      | inr after ↦ rw after (h.0, All-insert P x ys p h.1)
    ]

    -- What is not before the first of two is not before what follows it.
    pub not_before : (a b c : K) → lt b a ≡ false → lt c b ≡ false → lt c a ≡ false
    not_before a b c h g = ground (arith, trans b c a, trans c a b, total a b, total b c, h, g)

    All-not_before :
        (a b : K) (xs : List K)
        → lt b a ≡ false
        → All (λ y. lt y b ≡ false) xs
        → All (λ y. lt y a ≡ false) xs
    All-not_before a b [] h g = tt
    All-not_before a b (x ∷ xs) h g = (not_before a b x h g.0, All-not_before a b xs h g.1)

    pub insert-IsRanked : (x : K) (xs : List K) → IsRanked xs → IsRanked (insert x xs)
    unfolding insert
    insert-IsRanked x [] h = (tt, tt)
    insert-IsRanked x (y ∷ ys) h = elim (Bool-cases (lt x y)) [
      | inl before ↦
          let apart : lt y x ≡ false = ground (arith, before, trans x y x, irrefl x) in
          rw before ((apart, All-not_before x y ys apart h.0), h)
      | inr after ↦
          rw after (All-insert (λ z. lt z y ≡ false) x ys after h.0, insert-IsRanked x ys h.1)
    ]

    pub sort-IsRanked : (xs : List K) → IsRanked (sort xs)
    unfolding sort
    sort-IsRanked [] = tt
    sort-IsRanked (x ∷ xs) = insert-IsRanked x (sort xs) (sort-IsRanked xs)

    All-take : (P : K → Type 0) (n : ℕ) (xs : List K) → All P xs → All P (take n xs)
    All-take P zero xs h = tt
    All-take P (suc n) [] h = tt
    All-take P (suc n) (x ∷ xs) h = (h.0, All-take P n xs h.1)

    pub take-IsRanked : (n : ℕ) (xs : List K) → IsRanked xs → IsRanked (take n xs)
    take-IsRanked zero xs h = tt
    take-IsRanked (suc n) [] h = tt
    take-IsRanked (suc n) (x ∷ xs) h =
        (All-take (λ y. lt y x ≡ false) n xs h.0, take-IsRanked n xs h.1)

    -- An element that is not before the last is before none, and a full heap does not keep it.
    take-insert_late :
        (n : ℕ) (x : K) (xs : List K)
        → length xs ≡ n
        → All (λ y. lt x y ≡ false) xs
        → take n (insert x xs) ≡ xs
    unfolding insert
    take-insert_late zero x [] e h = refl
    take-insert_late zero x (y ∷ ys) e h = absurd (ground (arith, e))
    take-insert_late (suc n) x [] e h = absurd (ground (arith, e))
    take-insert_late (suc n) x (y ∷ ys) e h =
        rw (h.0) (ap (λ zs. y ∷ zs) (take-insert_late n x ys (ground (arith, e)) h.1))

    before_none :
        (x w : K) (xs : List K)
        → IsRanked xs
        → last xs ≡ some w
        → lt x w ≡ false
        → All (λ y. lt x y ≡ false) xs
    before_none x w [] h e g = tt
    before_none x w (y ∷ []) h e g = (ground (arith, e, g), tt)
    before_none x w (y ∷ z ∷ zs) h e g =
        let rest = before_none x w (z ∷ zs) h.1 e g in (not_before y z x h.0.0 rest.0, rest)

    pub push-kept :
        (n : ℕ) (x w : K) (best : List K)
        → IsRanked best
        → length best ≡ n
        → last best ≡ some w
        → lt x w ≡ false
        → take n (insert x best) ≡ best
    push-kept n x w best h e l g = take-insert_late n x best e (before_none x w best h l g)
