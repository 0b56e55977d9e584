-- ===== src/Cache/Volatile/Laws.antt =====
-- The Volatile strategy over the memory driver.
use runtime_rs.Base.{
  ℕ, Bool, true, false, none, some, Str, Bytes, str_eq, str_eq_iff, str_eq_refl, refl, sym, ◌≡◌,
  ◌≢◌, ◌↔◌, arith, Bool-cases, inl, inr,
}
use runtime_rs.Base.Assoc
use runtime_rs.Base.Assoc.{get-insert}
use runtime_rs.Cache.Outcome.{Outcome, proceed, ok, err, panic, no_ttl}
use runtime_rs.Cache.Memory
use runtime_rs.Cache.Memory.{World, memory_driver, memory_leases}
use runtime_rs.Cache.Memory.View.{present, Fits}
use runtime_rs.Cache.Memory.Reads.{get-view}
use runtime_rs.Cache.Memory.Writes.{set_exact}
use runtime_rs.Cache.Memory.Locks.{Lasts}
use runtime_rs.Cache.Memory.Frames.{OnlyAt, set-OnlyAt, delete-OnlyAt, touch-OnlyAt}
use runtime_rs.Cache.Keyspace
use runtime_rs.Cache.Keyspace.{Keyspace}
use runtime_rs.Cache.Keyspace.Families.{Key, vol_entry, qualify, IsPlain, qualify-injective}
use runtime_rs.Cache.Policy.{Options}
use runtime_rs.Cache.Volatile
use runtime_rs.Cache.Volatile.{VolatileImpl}

-- The conditions under which a write has no lease and may have none.
abbrev pub IsRefused : {S : Type 0} → VolatileImpl S → Options → Type 0
IsRefused v opts =
    (opts.ttl ≡ none) × (opts.permanent ≡ false) × (v.default_ttl ≡ 0) × (v.require_ttl ≡ true)

module _ {S : Type 0} (v : VolatileImpl S) (opts : Options) where
  -- A write is refused with `NoTTL` exactly where the caller gives no lease and does not ask for
  -- permanence, no default is configured, and an expiry is required.
  pub IsRefused-iff : (Volatile.resolve_ttl v opts ≡ err no_ttl) ↔ IsRefused v opts
  unfolding Volatile.resolve_ttl
  IsRefused-iff = ground arith

abbrev pub on_memory : Keyspace → ℕ → Bool → VolatileImpl World
on_memory ks default_ttl require_ttl = record {
  driver = memory_driver;
  leases = some memory_leases;
  scanner = none;
  keyspace = ks;
  default_ttl = default_ttl;
  require_ttl = require_ttl;
}

resolved-OnlyAt :
    (k : Str) (value : Bytes) (r : Outcome ℕ) (w : World)
    → OnlyAt k w (proceed r (λ ttl. Memory.set k value ttl) w).1
resolved-OnlyAt k value (ok ttl) w j h = set-OnlyAt k value ttl w j h
resolved-OnlyAt k value (err e) w j h = refl
resolved-OnlyAt k value panic w j h = refl

module _ (ks : Keyspace) (default_ttl : ℕ) (require_ttl : Bool) (key : Str) where
  abbrev v : VolatileImpl World
  v = on_memory ks default_ttl require_ttl

  set_resolved :
      (value : Bytes) (opts : Options) (ttl : ℕ) (w : World)
      → Volatile.resolve_ttl v opts ≡ ok ttl
      → Volatile.set v key value opts w ≡ Memory.set (Keyspace.vol_entry ks key) value ttl w
  unfolding Volatile.set
  set_resolved value opts ttl w h = rw h

  -- After a `set` whose lease the policy resolves and the clock can hold, a `get` at any time of
  -- the lease returns the value that was set, as long as the driver's map is the one that the
  -- `set` left.
  pub get-set :
      (value : Bytes) (opts : Options) (ttl : ℕ) (w u : World)
      → Volatile.resolve_ttl v opts ≡ ok ttl
      → Fits w ttl
      → u.map ≡ (Volatile.set v key value opts w).1.map
      → Lasts w ttl (present u)
      → (Volatile.get v key u).0 ≡ ok value
  unfolding Volatile.get
  get-set value opts ttl w u resolved fits same lasts = ground (
    arith,
    get-view (Keyspace.vol_entry ks key) u,
    set_resolved value opts ttl w resolved,
    (set_exact (Keyspace.vol_entry ks key) value ttl w (present u) (Keyspace.vol_entry ks key)
        fits).1,
    str_eq_refl (Keyspace.vol_entry ks key),
  )

  set-OnlyAt_vol :
      (value : Bytes) (opts : Options) (w : World)
      → OnlyAt (Keyspace.vol_entry ks key) w (Volatile.set v key value opts w).1
  unfolding Volatile.set
  set-OnlyAt_vol value opts w =
      resolved-OnlyAt (Keyspace.vol_entry ks key) value (Volatile.resolve_ttl v opts) w

  -- No `set`, `delete` or `touch` through Volatile, however it ends, changes what any other key of
  -- the database holds: a key of another strategy, whose index field name, if it has one, holds no
  -- colon, or another Volatile key.
  pub writes_keep_other_keys :
      (value : Bytes) (opts : Options) (ttl : ℕ) (w : World) (b : Key)
      → IsPlain b
      → b ≢ vol_entry key
      → (Assoc.get (qualify ks b) (Volatile.set v key value opts w).1.map
          ≡ Assoc.get (qualify ks b) w.map)
        × (Assoc.get (qualify ks b) (Volatile.delete v key w).1.map
            ≡ Assoc.get (qualify ks b) w.map)
        × (Assoc.get (qualify ks b) (Volatile.touch v key ttl w).1.map
            ≡ Assoc.get (qualify ks b) w.map)
  unfolding Volatile.delete Volatile.touch
  writes_keep_other_keys value opts ttl w b plain other = (
    set-OnlyAt_vol value opts w _ differs,
    delete-OnlyAt _ w _ differs,
    touch-OnlyAt _ ttl w _ differs,
  )
    where
      differs : str_eq (Keyspace.vol_entry ks key) (qualify ks b) ≡ false
      differs = elim (Bool-cases (str_eq (Keyspace.vol_entry ks key) (qualify ks b))) [
        | inl same ↦ absurd (
            other (sym (qualify-injective ks (vol_entry key) b tt plain ((str_eq_iff _ _).0 same))))
        | inr d ↦ d
      ]
