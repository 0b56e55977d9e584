-- ===== src/Cache/Batch/Batches.antt =====
-- Reads in batches give what the fallback gives.
use runtime_rs.Base.{
  ℕ, zero, suc, ◌≤◌, ◌≡◌, refl, ◌∙◌, ap, List, [], ◌∷◌, ◌++◌, none, some, Str, codes, length, arith,
}
use runtime_rs.Cache.Outcome.{Outcome, Exec, ok, err, panic, pure, ◌>>=◌}
use runtime_rs.Cache.Driver.{Driver, Bulk}
use runtime_rs.Cache.Batch
use runtime_rs.Cache.Batch.{
  take, drop, chunks_within, one_by_one, in_batches, validate_count, try_get, bulk_batch_size,
  check,
}

take-drop : {A : Type 0} (n : ℕ) (xs : List A) → take n xs ++ drop n xs ≡ xs
unfolding take drop
take-drop zero xs = refl
take-drop (suc n) [] = refl
take-drop (suc n) (x ∷ xs) = ap (λ ys. x ∷ ys) (take-drop n xs)

length-drop : {A : Type 0} (n : ℕ) (xs : List A) → length (drop n xs) ≤ length xs
unfolding drop
length-drop zero xs = omega arith
length-drop (suc n) [] = omega arith
length-drop (suc n) (x ∷ xs) = omega (arith, length-drop n xs)

abbrev concat : {A : Type 0} → List (List A) → List A
concat [] = []
concat (xs ∷ xss) = xs ++ concat xss

concat-chunks_within :
    {A : Type 0} (fuel n : ℕ) (xs : List A)
    → length xs ≤ fuel
    → concat (chunks_within fuel (suc n) xs) ≡ xs
unfolding chunks_within
concat-chunks_within zero n [] h = refl
concat-chunks_within zero n (x ∷ xs) h = absurd (omega arith)
concat-chunks_within (suc fuel) n [] h = refl
concat-chunks_within (suc fuel) n (x ∷ xs) h =
    rw
      (concat-chunks_within fuel n (drop (suc n) (x ∷ xs))
        (unfold drop in omega (arith, length-drop n xs)))
      (take-drop (suc n) (x ∷ xs))

-- An answer has as many values as there were keys, if it is one.
abbrev IsCount : {A : Type 0} → ℕ → Outcome (List A) → Type 0
IsCount n (ok values) = length values ≡ n
IsCount n (err error) = Unit
IsCount n panic = Unit

module _ {S A : Type 0} (single : Str → Exec S A) where
  one_by_one-IsCount : (ks : List Str) (s : S) → IsCount (length ks) (one_by_one single ks s).0
  unfolding one_by_one
  one_by_one-IsCount [] s = refl
  one_by_one-IsCount (k ∷ ks) s = ground (arith, one_by_one-IsCount ks (single k s).1)

  one_by_one-append :
      (ks js : List Str) (s : S)
      → one_by_one single (ks ++ js) s
        ≡ (one_by_one single ks >>= λ a. one_by_one single js >>= λ b. pure (a ++ b)) s
  unfolding one_by_one
  one_by_one-append [] js s = ground arith
  one_by_one-append (k ∷ ks) js s = ground (arith, one_by_one-append ks js (single k s).1)

  in_batches-one_by_one :
      (operation : Str) (many : List Str → Exec S (List A)) (batches : List (List Str)) (s : S)
      → ((ks : List Str) (u : S) → many ks u ≡ one_by_one single ks u)
      → in_batches operation many batches s ≡ one_by_one single (concat batches) s
  unfolding in_batches one_by_one check validate_count
  in_batches-one_by_one operation many [] s agrees = refl
  in_batches-one_by_one operation many (ks ∷ batches) s agrees = ground (
    arith,
    agrees ks s,
    one_by_one-IsCount ks s,
    one_by_one-append ks (concat batches) s,
    in_batches-one_by_one operation many batches (one_by_one single ks s).1 agrees,
  )

  batched :
      (operation : Str) (many : List Str → Exec S (List A)) (ks : List Str) (s : S)
      → ((js : List Str) (u : S) → many js u ≡ one_by_one single js u)
      → in_batches operation many (chunks_within (length ks) bulk_batch_size ks) s
        ≡ one_by_one single ks s
  batched operation many ks s agrees =
      in_batches-one_by_one operation many (chunks_within (length ks) bulk_batch_size ks) s agrees
      ∙ rw (concat-chunks_within (length ks) 255 ks (omega arith)) refl

-- Where the bulk reads of a backend do what single reads do one after the other, the values that
-- `get_all` returns, in their order, the failures, and what it leaves behind are the same with the
-- bulk capability, in batches of 256, as without it.
pub get_all-bulk :
    {S : Type 0} (driver : Driver S) (bulk : Bulk S) (ks : List Str) (s : S)
    → ((js : List Str) (u : S) → bulk.get_many js u ≡ one_by_one (try_get driver) js u)
    → Batch.get_all driver (some bulk) ks s ≡ Batch.get_all driver none ks s
unfolding Batch.get_all Batch.bodies
get_all-bulk driver bulk ks s agrees =
    rw (batched (try_get driver) (codes "get_many") bulk.get_many ks s agrees) refl

-- The same of the liveness answers of `exists_all`.
pub exists_all-bulk :
    {S : Type 0} (driver : Driver S) (bulk : Bulk S) (ks : List Str) (s : S)
    → ((js : List Str) (u : S) → bulk.exists_many js u ≡ one_by_one driver.exists js u)
    → Batch.exists_all driver (some bulk) ks s ≡ Batch.exists_all driver none ks s
unfolding Batch.exists_all
exists_all-bulk driver bulk ks s agrees =
    batched driver.exists (codes "exists_many") bulk.exists_many ks s agrees
