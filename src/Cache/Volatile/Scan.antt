-- ===== src/Cache/Volatile/Scan.antt =====
-- What a scan through Volatile returns.
use runtime_rs.Base.{
  not, Bool, true, false, List, [], ◌∷◌, some, Str, ◌&&◌, starts_with, str_eq, str_eq_iff,
  str_eq_refl, any, refl, sym, ◌∙◌, ◌≡◌, arith, Bool-cases, inl, inr, All,
}
use runtime_rs.Cache.Outcome.{ok}
use runtime_rs.Cache.Volatile
use runtime_rs.Cache.Keyspace
use runtime_rs.Cache.Volatile.{first_seen, collect, VolatileImpl, Scanner}

abbrev pub contains : Str → List Str → Bool
contains key = any (λ k. str_eq k key)

abbrev pub Distinct : List Str → Type 0
Distinct [] = Unit
Distinct (key ∷ keys) = (contains key keys ≡ false) × Distinct keys

contains-first_seen :
    (seen keys : List Str) (x : Str)
    → contains x (first_seen seen keys) ≡ (not (contains x seen) && contains x keys)
unfolding first_seen
contains-first_seen seen [] x = ground arith
contains-first_seen seen (key ∷ keys) x = ground (
  arith,
  contains-first_seen seen keys x,
  contains-first_seen (key ∷ seen) keys x,
  str_eq_iff key x,
)

first_seen-Distinct : (seen keys : List Str) → Distinct (first_seen seen keys)
unfolding first_seen
first_seen-Distinct seen [] = tt
first_seen-Distinct seen (key ∷ keys) = ground (
  arith,
  first_seen-Distinct seen keys,
  first_seen-Distinct (key ∷ seen) keys,
  contains-first_seen (key ∷ seen) keys key,
  str_eq_refl key,
)

first_seen-All :
    (P : Str → Type 0) (seen keys : List Str) → All P keys → All P (first_seen seen keys)
unfolding first_seen
first_seen-All P seen [] h = tt
first_seen-All P seen (key ∷ keys) (p, h) =
    ground (arith, first_seen-All P seen keys h, first_seen-All P (key ∷ seen) keys h)

All-inside :
    (prefix : Str) (keys : List Str)
    → any (λ key. not (starts_with key prefix)) keys ≡ false
    → All (λ key. starts_with key prefix ≡ true) keys
All-inside prefix [] h = tt
All-inside prefix (key ∷ keys) h = (ground arith, All-inside prefix keys (ground arith))

abbrev pub IsScanOf : Str → List Str → List Str → Type 0
IsScanOf prefix scanned keys =
    All (λ key. starts_with key prefix ≡ true) keys
    × Distinct keys
    × ((x : Str) → contains x keys ≡ contains x scanned)

collect_exact :
    (prefix : Str) (scanned keys : List Str)
    → collect prefix scanned ≡ ok keys
    → IsScanOf prefix scanned keys
unfolding collect
collect_exact prefix scanned keys h =
    elim (Bool-cases (any (λ key. not (starts_with key prefix)) scanned)) [
      | inl bad ↦ cc (bad, h)
      | inr good ↦
          let same : first_seen [] scanned ≡ keys = ground arith in
          rw (← same) (
            first_seen-All _ [] scanned (All-inside prefix scanned good),
            first_seen-Distinct [] scanned,
            λ x. contains-first_seen [] scanned x,
          )
    ]

none_outside :
    (prefix : Str) (keys : List Str)
    → All (λ key. starts_with key prefix ≡ true) keys
    → any (λ key. not (starts_with key prefix)) keys ≡ false
none_outside prefix [] h = refl
none_outside prefix (key ∷ keys) (p, h) = ground (arith, none_outside prefix keys h)

collect_inside :
    (prefix : Str) (scanned : List Str)
    → All (λ key. starts_with key prefix ≡ true) scanned
    → collect prefix scanned ≡ ok (first_seen [] scanned)
unfolding collect
collect_inside prefix scanned h = rw (none_outside prefix scanned h)

module _ {S : Type 0} (v : VolatileImpl S) (scanner : Scanner S) (pattern : Str) (s : S)
    (there : v.scanner ≡ some scanner) where
  scan_collects :
      (scanned : List Str)
      → (scanner.scan (Keyspace.vol_pattern v.keyspace pattern) s).0 ≡ ok scanned
      → (Volatile.scan v pattern s).0 ≡ collect (Keyspace.vol_prefix v.keyspace) scanned
  unfolding Volatile.scan
  scan_collects scanned h = ground arith

  -- Where the backend's scanner returns keys for the pattern of the family, what a scan that
  -- succeeds returns is exactly those, each once, and each of them begins with the prefix of the
  -- family.
  pub scan_exact :
      (scanned keys : List Str)
      → (scanner.scan (Keyspace.vol_pattern v.keyspace pattern) s).0 ≡ ok scanned
      → (Volatile.scan v pattern s).0 ≡ ok keys
      → IsScanOf (Keyspace.vol_prefix v.keyspace) scanned keys
  scan_exact scanned keys h e = collect_exact _ scanned keys (sym (scan_collects scanned h) ∙ e)

  -- A scan succeeds where all the keys that the backend's scanner returns begin with the prefix of
  -- the family.
  pub scan_succeeds :
      (scanned : List Str)
      → (scanner.scan (Keyspace.vol_pattern v.keyspace pattern) s).0 ≡ ok scanned
      → All (λ key. starts_with key (Keyspace.vol_prefix v.keyspace) ≡ true) scanned
      → (Volatile.scan v pattern s).0 ≡ ok (first_seen [] scanned)
  scan_succeeds scanned h inside = scan_collects scanned h ∙ collect_inside _ scanned inside
