-- ===== src/Cache/Volatile.antt =====
-- cache/src/strategies/volatile.rs: one driver key for each caller key.
pub mod Laws
pub mod Scan
mod Tests
use runtime_rs.Base.{
  ℕ, ◌==◌, if◌then◌else◌, not, Bool, List, [], ◌∷◌, Option, none, some, Str, Bytes, codes,
  starts_with, str_eq, any,
}
use runtime_rs.Cache.Outcome.{Outcome, Exec, ok, err, raise, ◌>>=◌, unsupported, no_ttl, internal}
use runtime_rs.Cache.Driver.{Driver, Leases}
use runtime_rs.Cache.Keyspace
use runtime_rs.Cache.Keyspace.{Keyspace}
use runtime_rs.Cache.Policy.{Options}

-- cache/src/core/scanner.rs
pub record Scanner (S : Type 0) : Type 0 where
  pub scan : Str → Exec S (List Str)

pub record VolatileImpl (S : Type 0) : Type 0 where
  pub driver : Driver S
  pub leases : Option (Leases S)
  pub scanner : Option (Scanner S)
  pub keyspace : Keyspace
  pub default_ttl : ℕ
  pub require_ttl : Bool

-- `filter(|key| seen.insert(key))`: the first of each key, in order.
unfoldable pub first_seen : List Str → List Str → List Str
first_seen seen [] = []
first_seen seen (key ∷ keys) =
    let kept = key ∷ first_seen (key ∷ seen) keys in
    let rest = first_seen seen keys in if any (λ k. str_eq k key) seen then rest else kept

outside : Str
outside = codes "scanner returned a key outside the Volatile keyspace"

-- The keys that a scan returned, checked and made unique.
collect : Str → List Str → Outcome (List Str)
unfolding first_seen outside
collect prefix scanned =
    if any (λ key. not (starts_with key prefix)) scanned
    then err (internal outside)
    else ok (first_seen [] scanned)

module _ {S : Type 0} where
  unfoldable pub resolve_ttl : VolatileImpl S → Options → Outcome ℕ
  resolve_ttl v opts = elim opts.ttl [
    | some ttl ↦ ok ttl
    | none ↦
        if opts.permanent
        then ok 0
        else if not (v.default_ttl == 0)
        then ok v.default_ttl
        else if v.require_ttl
        then err no_ttl
        else ok 0
  ]

  lift : {A : Type 0} → Outcome A → Exec S A
  lift r s = (r, s)

  unfoldable pub set : VolatileImpl S → Str → Bytes → Options → Exec S Unit
  unfolding resolve_ttl lift
  set v key value opts = do
    ttl ← lift (resolve_ttl v opts)
    v.driver.set (Keyspace.vol_entry v.keyspace key) value ttl

  -- What a success writes to `dest`.
  unfoldable pub get : VolatileImpl S → Str → Exec S Bytes
  get v key = v.driver.get (Keyspace.vol_entry v.keyspace key)

  unfoldable pub delete : VolatileImpl S → Str → Exec S Unit
  delete v key = v.driver.delete (Keyspace.vol_entry v.keyspace key ∷ [])

  unfoldable pub touch : VolatileImpl S → Str → ℕ → Exec S Unit
  touch v key ttl = v.driver.touch (Keyspace.vol_entry v.keyspace key) ttl

  unfoldable pub ttl : VolatileImpl S → Str → Exec S ℕ
  ttl v key = elim v.leases [
    | none ↦ raise unsupported
    | some leases ↦ leases.ttl (Keyspace.vol_entry v.keyspace key)
  ]

  unfoldable pub scan : VolatileImpl S → Str → Exec S (List Str)
  unfolding collect lift
  scan v pattern = elim v.scanner [
    | none ↦ raise unsupported
    | some scanner ↦ do
      scanned ← scanner.scan (Keyspace.vol_pattern v.keyspace pattern)
      lift (collect (Keyspace.vol_prefix v.keyspace) scanned)
  ]
