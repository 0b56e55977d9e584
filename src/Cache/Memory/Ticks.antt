-- ===== src/Cache/Memory/Ticks.antt =====
-- What the memory driver's operations do to the clock, and what they do under a key that is absent
-- or claimed.
use runtime_rs.Base.{
  ℕ, ◌≤◌, ◌≡◌, ◌⊎◌, ◌≢◌, true, none, some, Str, Bytes, arith, str_eq_refl, List, [], ◌∷◌, refl,
}
use runtime_rs.Base.Assoc
use runtime_rs.Base.Assoc.{get-insert, get-remove}
use runtime_rs.Cache.Outcome.{ok, panic}
use runtime_rs.Cache.Memory
use runtime_rs.Cache.Memory.{Entry, World}
use runtime_rs.Cache.Memory.View.{view, leased}

-- The clock itself stays, and is read any number of times.
abbrev pub Ticks : World → World → Type 0
Ticks w w' = (w'.clock ≡ w.clock) × (w.reads ≤ w'.reads)

pub get-Ticks :
    (k : Str) (w : World) → ((Memory.get k w).1.map ≡ w.map) × Ticks w (Memory.get k w).1
unfolding Memory.get
get-Ticks k w = ground arith

pub set-Ticks : (k : Str) (v : Bytes) (ttl : ℕ) (w : World) → Ticks w (Memory.set k v ttl w).1
unfolding Memory.set
set-Ticks k v ttl w = ground arith

pub release-Ticks : (k : Str) (v : Bytes) (w : World) → Ticks w (Memory.delete_if k v w).1
unfolding Memory.delete_if
release-Ticks k v w = ground arith

-- An `add` under a key without an entry stores its own, or panics and stores none.
pub add_free :
    (k : Str) (v : Bytes) (ttl : ℕ) (w : World)
    → Assoc.get k w.map ≡ none
    → Ticks w (Memory.add k v ttl w).1
      × (((Memory.add k v ttl w).0 ≡ ok true)
            × (Assoc.get k (Memory.add k v ttl w).1.map ≡ some (leased w v ttl))
          ⊎ ((Memory.add k v ttl w).0 ≡ panic) × (Assoc.get k (Memory.add k v ttl w).1.map ≡ none))
unfolding Memory.add
add_free k v ttl w free = ground (arith, free, get-insert k k (leased w v ttl) w.map, str_eq_refl k)

-- The owner's `delete_if` leaves nothing that can be seen later: either the entry is removed, or
-- its lease had run out.
pub release_frees :
    (k : Str) (v : Bytes) (ttl : ℕ) (w u : World) (t : ℕ)
    → Assoc.get k u.map ≡ some (leased w v ttl)
    → u.clock u.reads ≤ t
    → ((Memory.delete_if k v u).0 ≢ panic) × (view t (Memory.delete_if k v u).1 k ≡ none)
unfolding Memory.delete_if
release_frees k v ttl w u t there late =
    ground (arith, there, late, get-remove k k u.map, str_eq_refl k, str_eq_refl v)

pub delete_ticks :
    (ks : List Str) (w : World)
    → ((Memory.delete ks w).1.clock ≡ w.clock) × ((Memory.delete ks w).1.horizon ≡ w.horizon)
unfolding Memory.delete
delete_ticks [] w = (refl, refl)
delete_ticks (k ∷ ks) w = delete_ticks ks (record w { map = Assoc.remove k w.map })
