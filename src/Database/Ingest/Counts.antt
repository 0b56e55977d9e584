-- ===== src/Database/Ingest/Counts.antt =====
-- How often the records of a test stand in lists, in batches and in a queue.
use runtime_rs.Base.{
  ℕ, ◌+◌, ◌≡◌, refl, Option-cases, inl, inr, if◌then◌else◌, Bool, List, [], ◌∷◌, ◌++◌, some, none,
  zero, suc, arith,
}
use runtime_rs.Database.Ingest.{Command, append, flush, records, pick, flatten}

module _ {R : Type 0} (p : R → Bool) where
  abbrev pub count : List R → ℕ
  count [] = 0
  count (r ∷ rs) = (if p r then 1 else 0) + count rs

  pub count-append : (rs ts : List R) → count (rs ++ ts) ≡ count rs + count ts
  count-append [] ts = omega arith
  count-append (r ∷ rs) ts = omega (arith, count-append rs ts)

  abbrev pub count_batches : List (List R) → ℕ
  count_batches [] = 0
  count_batches (b ∷ bs) = count b + count_batches bs

  pub count-flatten : (bs : List (List R)) → count (flatten bs) ≡ count_batches bs
  count-flatten [] = refl
  count-flatten (b ∷ bs) = omega (arith, count-append b (flatten bs), count-flatten bs)

  pub count_batches-pick :
      (i : ℕ) (bs : List (List R)) (b : List R) (rest : List (List R))
      → pick i bs ≡ some (b, rest)
      → count_batches bs ≡ count b + count_batches rest
  unfolding pick
  count_batches-pick i [] b rest e = absurd (ground arith)
  count_batches-pick zero (c ∷ bs) b rest e = ground arith
  count_batches-pick (suc i) (c ∷ bs) b rest e = elim (Option-cases (pick i bs)) [
    | inl missing ↦ absurd (ground arith)
    | inr ((d, ds), found) ↦ ground (arith, count_batches-pick i bs d ds)
  ]

  pub pick-empty : (i : ℕ) → pick {A = R} i [] ≡ none
  unfolding pick
  pick-empty i = refl

  module _ {E : Type 0} where
    -- Each flush that waits in a queue was asked for when `n` records, and those before it in the
    -- queue, had been admitted.
    abbrev pub Ahead : ℕ → List (Command R E) → Type 0
    Ahead n [] = Unit
    Ahead n (append r ∷ queue) = Ahead (n + (if p r then 1 else 0)) queue
    Ahead n (flush before ∷ queue) = (count before ≡ n) × Ahead n queue

    pub records-append :
        (q k : List (Command R E))
        → count (records (q ++ k)) ≡ count (records q) + count (records k)
    records-append [] k = omega arith
    records-append (append r ∷ q) k = omega (arith, records-append q k)
    records-append (flush before ∷ q) k = omega (arith, records-append q k)

    pub Ahead-record :
        (n : ℕ) (q : List (Command R E)) (r : R) → Ahead n q → Ahead n (q ++ append r ∷ [])
    Ahead-record n [] r h = tt
    Ahead-record n (append t ∷ q) r h = Ahead-record (n + (if p t then 1 else 0)) q r h
    Ahead-record n (flush before ∷ q) r h = (h.0, Ahead-record n q r h.1)

    pub Ahead-flush :
        (n : ℕ) (q : List (Command R E)) (before : List R)
        → Ahead n q
        → count before ≡ n + count (records q)
        → Ahead n (q ++ flush before ∷ [])
    Ahead-flush n [] before h e = (omega arith, tt)
    Ahead-flush n (append t ∷ q) before h e =
        Ahead-flush (n + (if p t then 1 else 0)) q before h (omega arith)
    Ahead-flush n (flush b ∷ q) before h e = (h.0, Ahead-flush n q before h.1 e)
