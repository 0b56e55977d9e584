-- ===== src/Cache/Batch.antt =====
-- cache/src/strategies/batch.rs: operations that span many entries. The fallback's calls, of which
-- the source keeps a bounded number under way at once, are made in their order: `buffered` gives
-- the results in that order and `try_collect` ends with the first error.
pub mod Batches
use runtime_rs.Base.{
  ℕ, zero, suc, ◌-◌, ◌==◌, if◌then◌else◌, Bool, true, false, List, [], ◌∷◌, ◌++◌, Option, none,
  some, Str, Bytes, codes, length, any, str_eq,
}
use runtime_rs.Base.Decimal.{decimal}
use runtime_rs.Cache.Outcome.{
  Outcome, Exec, ok, err, panic, raise, pure, proceed, ◌>>=◌, ◌>>◌, internal, not_found,
}
use runtime_rs.Cache.Driver.{Driver, Bulk}
use runtime_rs.Cache.Sets.{Sets, SetScanner, Visitor}

-- At most `n` elements from the front.
unfoldable pub take {ℓ} : {A : Type ℓ} → ℕ → List A → List A
take zero xs = []
take (suc n) [] = []
take (suc n) (x ∷ xs) = x ∷ take n xs

unfoldable pub drop {ℓ} : {A : Type ℓ} → ℕ → List A → List A
drop zero xs = xs
drop (suc n) [] = []
drop (suc n) (x ∷ xs) = drop n xs

-- `keys.chunks(n)`: no more chunks than keys.
unfoldable pub chunks_within {ℓ} : {A : Type ℓ} → ℕ → ℕ → List A → List (List A)
unfolding take drop
chunks_within zero n xs = []
chunks_within (suc fuel) n [] = []
chunks_within (suc fuel) n (x ∷ xs) = take n (x ∷ xs) ∷ chunks_within fuel n (drop n (x ∷ xs))

abbrev pub bulk_batch_size : ℕ
bulk_batch_size = 256

unfoldable pub miscount : Str → ℕ → ℕ → Str
miscount operation expected actual =
    codes "Bulk::"
    ++ (operation
        ++ (codes " returned "
            ++ (decimal actual
                ++ (codes " result(s) for " ++ (decimal expected ++ codes " key(s)")))))

unfoldable pub validate_count : Str → ℕ → ℕ → Outcome (Unit {0})
unfolding miscount
validate_count operation expected actual =
    if expected == actual then ok tt else err (internal (miscount operation expected actual))

-- `into_iter().flatten()`
abbrev pub present_values : List (Option Bytes) → List Bytes
present_values [] = []
present_values (none ∷ values) = present_values values
present_values (some v ∷ values) = v ∷ present_values values

-- A miss is no error.
unfoldable pub optional : Outcome Bytes → Outcome (Option Bytes)
optional (ok body) = ok (some body)
optional (err not_found) = ok none
optional (err error) = err error
optional panic = panic

-- The members that are there, and the others, by the answers in order.
abbrev pub partition : List Str → List Bool → List Str × List Str
partition (id ∷ ids) (found ∷ answers) =
    let rest = partition ids answers in
    if found then (id ∷ rest.0, rest.1) else (rest.0, id ∷ rest.1)
partition _ _ = ([], [])

abbrev pub map_keys : (Str → Str) → List Str → List Str
map_keys entry_key [] = []
map_keys entry_key (id ∷ ids) = entry_key id ∷ map_keys entry_key ids

abbrev pub is_empty : List Str → Bool
is_empty [] = true
is_empty (_ ∷ _) = false

-- `seen` and `live` of the visitor.
pub record Gathered : Type 0 where
  pub seen : List Str
  pub live : List Str

unfoldable pub gather : List Str → Gathered → Gathered
gather [] g = g
gather (id ∷ ids) g =
    let again = gather ids g in
    let first = gather ids (record { seen = id ∷ g.seen; live = g.live ++ (id ∷ []) }) in
    if any (λ k. str_eq k id) g.seen then again else first

module _ {S : Type 0} where
  check : Str → ℕ → ℕ → Exec S Unit
  check operation expected actual s = (validate_count operation expected actual, s)

  -- The loop over the batches.
  unfoldable pub in_batches :
      {A : Type 0} → Str → (List Str → Exec S (List A)) → List (List Str) → Exec S (List A)
  unfolding check
  in_batches operation many [] = pure []
  in_batches operation many (batch ∷ batches) = do
    values ← many batch
    check operation (length batch) (length values)
    rest ← in_batches operation many batches
    pure (values ++ rest)

  unfoldable pub one_by_one : {A : Type 0} → (Str → Exec S A) → List Str → Exec S (List A)
  one_by_one single [] = pure []
  one_by_one single (key ∷ keys) = do
    value ← single key
    rest ← one_by_one single keys
    pure (value ∷ rest)

  unfoldable pub try_get : Driver S → Str → Exec S (Option Bytes)
  unfolding optional
  try_get driver key s = (optional (driver.get key s).0, (driver.get key s).1)

  unfoldable pub bodies : Driver S → Option (Bulk S) → List Str → Exec S (List (Option Bytes))
  unfolding in_batches one_by_one try_get chunks_within
  bodies driver bulk keys = elim bulk [
    | none ↦ one_by_one (try_get driver) keys
    | some many ↦
        in_batches (codes "get_many") many.get_many
          (chunks_within (length keys) bulk_batch_size keys)
  ]

  unfoldable pub get_all : Driver S → Option (Bulk S) → List Str → Exec S (List Bytes)
  unfolding bodies
  get_all driver bulk keys = do found ← bodies driver bulk keys; pure (present_values found)

  unfoldable pub exists_all : Driver S → Option (Bulk S) → List Str → Exec S (List Bool)
  unfolding in_batches one_by_one chunks_within
  exists_all driver bulk keys = elim bulk [
    | none ↦ one_by_one driver.exists keys
    | some many ↦
        in_batches (codes "exists_many") many.exists_many
          (chunks_within (length keys) bulk_batch_size keys)
  ]

  unfoldable pub classify_members :
      Driver S → Option (Bulk S) → (Str → Str) → List Str → Exec S (List Str × List Str)
  unfolding exists_all
  classify_members driver bulk entry_key members = do
    found ← exists_all driver bulk (map_keys entry_key members)
    pure (partition members found)

  -- The outcome of the removal is dropped.
  unfoldable pub cleanup_stale : Sets S → Str → List Str → Exec S Unit
  cleanup_stale sets set_key stale s =
      if is_empty stale then (ok tt, s) else (ok tt, (sets.set_remove set_key stale s).1)

  beside : {A V : Type 0} → Exec S A → Exec (S × V) A
  beside m s = ((m s.0).0, ((m s.0).1, s.1))

  collect : List Str → Exec (S × Gathered) Unit
  unfolding gather
  collect ids s = (ok tt, (s.0, gather ids s.1))

  unfoldable pub visit :
      Driver S → Option (Bulk S) → Sets S → Str → (Str → Str) → Visitor S Gathered
  unfolding classify_members cleanup_stale beside collect
  visit driver bulk sets set_key entry_key members = if is_empty members then pure tt else (do
    parts ← beside (classify_members driver bulk entry_key members)
    beside (cleanup_stale sets set_key parts.1)
    collect parts.0)

  -- `live_members` without a scanner.
  unfoldable pub live_at_once :
      Driver S → Option (Bulk S) → Sets S → Str → (Str → Str) → Exec S (List Str)
  unfolding classify_members cleanup_stale
  live_at_once driver bulk sets set_key entry_key = do
    members ← sets.set_members set_key
    if is_empty members then pure [] else (do
      parts ← classify_members driver bulk entry_key members
      cleanup_stale sets set_key parts.1
      pure parts.0)

  unfoldable pub live_by_pages :
      Driver S → Option (Bulk S) → Sets S → SetScanner S → Str → (Str → Str) → Exec S (List Str)
  unfolding visit
  live_by_pages driver bulk sets scanner set_key entry_key s =
      let nothing : Gathered = record { seen = []; live = [] } in
      let scanned =
        scanner.set_scan Gathered set_key (visit driver bulk sets set_key entry_key) (s, nothing) in
      proceed scanned.0 (λ _. pure scanned.1.1.live) scanned.1.0

  unfoldable pub live_members :
      Driver S
      → Option (Bulk S)
      → Sets S
      → Option (SetScanner S)
      → Str
      → (Str → Str)
      → Exec S (List Str)
  unfolding live_at_once live_by_pages
  live_members driver bulk sets set_scanner set_key entry_key = elim set_scanner [
    | some scanner ↦ live_by_pages driver bulk sets scanner set_key entry_key
    | none ↦ live_at_once driver bulk sets set_key entry_key
  ]
