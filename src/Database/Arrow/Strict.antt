-- ===== src/Database/Arrow/Strict.antt =====
-- Rows that all differ, in the order of the read, and what lies beyond one of them.
use Prim.Native.Nat.{zero, suc}
use runtime_rs.Base.{
  ℕ, ◌≡◌, ◌≢◌, refl, ap, subst, sym, ◌∙◌, ◌&&◌, if◌then◌else◌, Bool, true, false, List, [], ◌∷◌,
  some, arith, All, Bool-cases, inl, inr,
}
use runtime_rs.Database.Arrow.Heap.{
  take, skip, last, insert, sort, All-insert, IsRanked, sort-IsRanked,
}
use runtime_rs.Database.Arrow.Gather.{filter}

module _ {K : Type 0} where
  abbrev pub IsDistinct : List K → Type 0
  IsDistinct [] = Unit
  IsDistinct (x ∷ xs) = All (λ y. x ≢ y) xs × IsDistinct xs

  pub All-filter : (P : K → Type 0) (q : K → Bool) (xs : List K) → All P xs → All P (filter q xs)
  All-filter P q [] h = tt
  All-filter P q (x ∷ xs) h = elim (Bool-cases (q x)) [
    | inl through ↦ rw through (h.0, All-filter P q xs h.1)
    | inr stopped ↦ rw stopped (All-filter P q xs h.1)
  ]

  pub filter-IsDistinct : (q : K → Bool) (xs : List K) → IsDistinct xs → IsDistinct (filter q xs)
  filter-IsDistinct q [] h = tt
  filter-IsDistinct q (x ∷ xs) h = elim (Bool-cases (q x)) [
    | inl through ↦ rw through (All-filter (λ y. x ≢ y) q xs h.0, filter-IsDistinct q xs h.1)
    | inr stopped ↦ rw stopped (filter-IsDistinct q xs h.1)
  ]

  filter_none : (q : K → Bool) (xs : List K) → All (λ x. q x ≡ true) xs → filter q xs ≡ xs
  filter_none q [] h = refl
  filter_none q (x ∷ xs) h = rw (h.0) (ap (λ ys. x ∷ ys) (filter_none q xs h.1))

  pub filter-filter :
      (p q r : K → Bool) (xs : List K)
      → ((x : K) → r x ≡ p x && q x)
      → filter q (filter p xs) ≡ filter r xs
  filter-filter p q r [] h = refl
  filter-filter p q r (x ∷ xs) h = ground (arith, h x, filter-filter p q r xs h)

  pub last-All : (P : K → Type 0) (a : K) (xs : List K) → All P xs → last xs ≡ some a → P a
  last-All P a [] h e = absurd (ground (arith, e))
  last-All P a (x ∷ []) h e = subst P (ground (arith, e)) h.0
  last-All P a (x ∷ y ∷ ys) h e = last-All P a (y ∷ ys) h.1 e

  pub All-take : (P : K → Type 0) (n : ℕ) (xs : List K) → All P xs → All P (take n xs)
  All-take P zero xs h = tt
  All-take P (suc n) [] h = tt
  All-take P (suc n) (x ∷ xs) h = (h.0, All-take P n xs h.1)

  module _ (lt : K → K → Bool) where
    abbrev pub IsStrict : List K → Type 0
    IsStrict [] = Unit
    IsStrict (x ∷ xs) = All (λ y. lt x y ≡ true) xs × IsStrict xs

  module _ (lt : K → K → Bool) (irrefl : (a : K) → lt a a ≡ false)
      (trans : (a b c : K) → lt a b ≡ true → lt b c ≡ true → lt a c ≡ true)
      (total : (a b : K) → lt a b ≡ false → lt b a ≡ false → a ≡ b) where
    All-after :
        (x y : K) (ys : List K)
        → lt x y ≡ true
        → All (λ z. lt y z ≡ true) ys
        → All (λ z. lt x z ≡ true) ys
    All-after x y [] e h = tt
    All-after x y (z ∷ zs) e h = (trans x y z e h.0, All-after x y zs e h.1)

    insert-IsStrict :
        (x : K) (xs : List K) → All (λ y. x ≢ y) xs → IsStrict lt xs → IsStrict lt (insert lt x xs)
    unfolding insert
    insert-IsStrict x [] d h = (tt, tt)
    insert-IsStrict x (y ∷ ys) d h = elim (Bool-cases (lt x y)) [
      | inl before ↦ rw before ((before, All-after x y ys before h.0), h)
      | inr after ↦ rw after (
        All-insert lt irrefl trans total (λ z. lt y z ≡ true) x ys
            (ground (arith, after, d.0, total x y)) h.0,
        insert-IsStrict x ys d.1 h.1,
      )
    ]

    pub All-sort : (P : K → Type 0) (xs : List K) → All P xs → All P (sort lt xs)
    unfolding sort
    All-sort P [] h = tt
    All-sort P (x ∷ xs) h =
        All-insert lt irrefl trans total P x (sort lt xs) h.0 (All-sort P xs h.1)

    pub sort-IsStrict : (xs : List K) → IsDistinct xs → IsStrict lt (sort lt xs)
    unfolding sort
    sort-IsStrict [] d = tt
    sort-IsStrict (x ∷ xs) d =
        insert-IsStrict x (sort lt xs) (All-sort (λ y. x ≢ y) xs d.0) (sort-IsStrict xs d.1)

    insert_first : (x : K) (xs : List K) → All (λ y. lt x y ≡ true) xs → insert lt x xs ≡ x ∷ xs
    unfolding insert
    insert_first x [] h = refl
    insert_first x (y ∷ ys) h = rw (h.0) refl

    ranked_after :
        (x y : K) (ys : List K)
        → lt x y ≡ true
        → All (λ z. lt z y ≡ false) ys
        → All (λ z. lt x z ≡ true) ys
    ranked_after x y [] e h = tt
    ranked_after x y (z ∷ zs) e h =
        (ground (arith, e, h.0, trans z x y, total x z), ranked_after x y zs e h.1)

    filter-insert :
        (q : K → Bool) (x : K) (xs : List K)
        → IsRanked lt xs
        → filter q (insert lt x xs) ≡ (if q x then insert lt x (filter q xs) else filter q xs)
    unfolding insert
    filter-insert q x [] h = refl
    filter-insert q x (y ∷ ys) h = elim (Bool-cases (lt x y)) [
      | inl before ↦
          let later = ranked_after x y ys before h.0 in
          let first =
            insert_first x (filter q (y ∷ ys))
              (All-filter (λ z. lt x z ≡ true) q (y ∷ ys) (before, later)) in
          rw before (ground (arith, first))
      | inr after ↦ rw after (ground (arith, after, filter-insert q x ys h.1))
    ]

    pub filter-sort : (q : K → Bool) (xs : List K) → filter q (sort lt xs) ≡ sort lt (filter q xs)
    unfolding sort
    filter-sort q [] = refl
    filter-sort q (x ∷ xs) =
        filter-insert q x (sort lt xs) (sort-IsRanked lt irrefl trans total xs)
        ∙ ground (arith, filter-sort q xs)

    -- Beyond the last of the first n lies what they are followed by.
    pub filter_beyond :
        (n : ℕ) (a : K) (xs : List K)
        → IsStrict lt xs
        → last (take n xs) ≡ some a
        → filter (lt a) xs ≡ skip n xs
    filter_beyond zero a xs h e = absurd (ground (arith, e))
    filter_beyond (suc n) a [] h e = refl
    filter_beyond (suc zero) a (x ∷ xs) h e =
        let same : x ≡ a = ground (arith, e) in
        ap (λ b. filter (lt b) (x ∷ xs)) (sym same) ∙ rw (irrefl x) (filter_none (lt x) xs h.0)
    filter_beyond (suc (suc n)) a (x ∷ []) h e =
        let same : x ≡ a = ground (arith, e) in rw (sym same) (rw (irrefl x) refl)
    filter_beyond (suc (suc n)) a (x ∷ y ∷ ys) h e =
        let past : lt x a ≡ true =
          last-All (λ z. lt x z ≡ true) a (y ∷ take n ys)
            (h.0.0, All-take (λ z. lt x z ≡ true) n ys h.0.1) e in
        let apart : lt a x ≡ false = ground (arith, past, trans x a x, irrefl x) in
        rw apart (filter_beyond (suc n) a (y ∷ ys) h.1 e)
