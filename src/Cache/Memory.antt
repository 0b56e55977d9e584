-- ===== src/Cache/Memory.antt =====
-- cache/src/core/memory_driver.rs: the process-local driver. Times are nanoseconds. Each call runs
-- whole, as under the map's lock; every `Instant::now()` is one more reading of the clock.
pub mod View
pub mod Reads
pub mod Writes
pub mod Locks
pub mod Frames
pub mod Expiry
pub mod Ticks
pub mod Contract
pub mod Refines
mod Tests
use runtime_rs.Base.{
  ℕ, ◌+◌, ◌-◌, ◌==◌, leb, ltb, if◌then◌else◌, Bool, true, false, List, [], ◌∷◌, Option, none, some,
  Str, Bytes, str_eq,
}
use runtime_rs.Base.Assoc
use runtime_rs.Base.Assoc.{Map}
use runtime_rs.Cache.Outcome.{Exec, pure, raise, panic, not_found, ◌>>=◌, ok, ◌>>◌}
use runtime_rs.Cache.Driver.{Driver, Bulk, Leases, Fenced}

-- `expires_at = none` is a permanent entry.
pub record Entry : Type 0 where
  pub value : Bytes
  pub expires_at : Option ℕ

-- `clock i` is what the i-th reading returns, `reads` how many have been made, and `horizon` the
-- first time that the platform's `Instant` cannot hold.
pub record World : Type 0 where
  pub clock : ℕ → ℕ
  pub reads : ℕ
  pub horizon : ℕ
  pub map : Map Entry

pub now : Exec World ℕ
now w = (ok (w.clock w.reads), record w { reads = w.reads + 1 })

-- `Instant + Duration` panics where the sum has no representation.
instant_add : ℕ → ℕ → Exec World ℕ
instant_add t d w = if ltb (t + d) w.horizon then (ok (t + d), w) else (panic, w)

is_expired : Entry → Exec World Bool
unfolding now
is_expired e = elim e.expires_at [
  | none ↦ pure false
  | some expiry ↦ (do t ← now; pure (leb expiry t))
]

expiry_of : ℕ → Exec World (Option ℕ)
unfolding now instant_add
expiry_of ttl =
    if ttl == 0 then pure none else (do t ← now; deadline ← instant_add t ttl; pure (some deadline))

look : Str → Exec World (Option Entry)
look key w = (ok (Assoc.get key w.map), w)

store : Str → Entry → Exec World Unit
store key e w = (ok tt, record w { map = Assoc.insert key e w.map })

discard : Str → Exec World Unit
discard key w = (ok tt, record w { map = Assoc.remove key w.map })

-- What an entry that was looked up holds now, if it is live.
live_value : Option Entry → Exec World (Option Bytes)
unfolding is_expired
live_value none = pure none
live_value (some e) = do gone ← is_expired e; pure (if gone then none else some e.value)

or_not_found : Option Bytes → Exec World Bytes
or_not_found none = raise not_found
or_not_found (some v) = pure v

pub get : Str → Exec World Bytes
unfolding look live_value or_not_found
get key = do entry ← look key; found ← live_value entry; or_not_found found

pub set : Str → Bytes → ℕ → Exec World Unit
unfolding expiry_of store
set key v ttl = do
  expires_at ← expiry_of ttl
  store key (record { value = v; expires_at = expires_at })

is_some : Option Bytes → Bool
is_some none = false
is_some (some _) = true

pub add : Str → Bytes → ℕ → Exec World Bool
unfolding expiry_of store look live_value is_some
add key v ttl = do
  expires_at ← expiry_of ttl
  entry ← look key
  found ← live_value entry
  if is_some found
      then pure false
      else (do store key (record { value = v; expires_at = expires_at }); pure true)

pub replace : Str → Bytes → ℕ → Exec World Bool
unfolding expiry_of store look live_value is_some
replace key v ttl = do
  expires_at ← expiry_of ttl
  entry ← look key
  found ← live_value entry
  if is_some found
      then (do store key (record { value = v; expires_at = expires_at }); pure true)
      else pure false

pub delete : List Str → Exec World Unit
unfolding discard
delete [] = pure tt
delete (key ∷ keys) = do discard key; delete keys

pub exists : Str → Exec World Bool
unfolding look live_value is_some
exists key = do entry ← look key; found ← live_value entry; pure (is_some found)

relet : Str → ℕ → Option Entry → Exec World Unit
unfolding is_expired expiry_of store
relet key ttl none = raise not_found
relet key ttl (some e) = do
  gone ← is_expired e
  if gone
      then raise not_found
      else (do expires_at ← expiry_of ttl; store key (record e { expires_at = expires_at }))

pub touch : Str → ℕ → Exec World Unit
unfolding look relet
touch key ttl = do entry ← look key; relet key ttl entry

pub get_many : List Str → Exec World (List (Option Bytes))
unfolding look live_value
get_many [] = pure []
get_many (key ∷ keys) = do
  entry ← look key
  found ← live_value entry
  rest ← get_many keys
  pure (found ∷ rest)

pub exists_many : List Str → Exec World (List Bool)
unfolding exists
exists_many [] = pure []
exists_many (key ∷ keys) = do found ← exists key; rest ← exists_many keys; pure (found ∷ rest)

remaining : Option ℕ → Exec World ℕ
unfolding now
remaining none = pure 0
remaining (some expires_at) = do
  t ← now
  if leb expires_at t then raise not_found else pure (expires_at - t)

lease_of : Option Entry → Exec World ℕ
unfolding remaining
lease_of none = raise not_found
lease_of (some e) = remaining e.expires_at

pub ttl : Str → Exec World ℕ
unfolding look lease_of
ttl key = do entry ← look key; lease_of entry

matches : Bytes → Option Bytes → Bool
matches expected none = false
matches expected (some v) = str_eq v expected

pub delete_if : Str → Bytes → Exec World Bool
unfolding look live_value matches discard
delete_if key expected = do
  entry ← look key
  found ← live_value entry
  if matches expected found then (do discard key; pure true) else pure false

abbrev pub memory_driver : Driver World
memory_driver = record {
  get = get;
  set = set;
  add = add;
  replace = replace;
  delete = delete;
  exists = exists;
  touch = touch;
}

abbrev pub memory_bulk : Bulk World
memory_bulk = record { get_many = get_many; exists_many = exists_many }

abbrev pub memory_leases : Leases World
memory_leases = record { ttl = ttl }

abbrev pub memory_fenced : Fenced World
memory_fenced = record { delete_if = delete_if }
