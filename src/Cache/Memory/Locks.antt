-- ===== src/Cache/Memory/Locks.antt =====
-- `add` and `delete_if` as the lock that `Fenced` promises.
use runtime_rs.Base.{
  ℕ, ◌+◌, ◌<◌, ◌≡◌, ◌⊎◌, if◌then◌else◌, Bool, true, false, Option, none, some, Str, Bytes, arith,
  str_eq, str_eq_refl,
}
use runtime_rs.Base.Assoc
use runtime_rs.Base.Assoc.{get-insert, get-remove}
use runtime_rs.Cache.Outcome.{ok}
use runtime_rs.Cache.Memory
use runtime_rs.Cache.Memory.{Entry, World}
use runtime_rs.Cache.Memory.View.{view, present, Fits, leased, check_time}
use runtime_rs.Cache.Memory.Writes.{add_exact}

abbrev pub holds : Bytes → Option Entry → Bool
holds v none = false
holds v (some e) = str_eq e.value v

-- `delete_if` tells whether the live entry has the expected bytes; it removes it then, and
-- changes nothing else.
pub delete_if_exact :
    (k : Str) (v : Bytes) (w : World)
    → ((Memory.delete_if k v w).0 ≡ ok (holds v (view (present w) w k)))
      × ((Memory.delete_if k v w).1.map
          ≡ (if holds v (view (present w) w k) then Assoc.remove k w.map else w.map))
unfolding Memory.delete_if
delete_if_exact k v w = ground arith

-- The entry that a claim stored is live at the time t.
abbrev pub Lasts : World → ℕ → ℕ → Type 0
Lasts w ttl t = (ttl ≡ 0) ⊎ (t < present w + ttl)

module _ (k : Str) (v : Bytes) (ttl : ℕ) (w : World) where
  claimed :
      Fits w ttl
      → (Memory.add k v ttl w).0 ≡ ok true
      → (Memory.add k v ttl w).1.map ≡ Assoc.insert k (leased w v ttl) w.map
  claimed fits won = ground (arith, add_exact k v ttl w fits)

  -- A later state in which nobody has written the key since the claim.
  abbrev pub Untouched : World → Type 0
  Untouched u = Assoc.get k u.map ≡ Assoc.get k (Memory.add k v ttl w).1.map

  view-claimed :
      (t : ℕ) (u : World)
      → Fits w ttl
      → (Memory.add k v ttl w).0 ≡ ok true
      → Untouched u
      → Lasts w ttl t
      → view t u k ≡ some (leased w v ttl)
  view-claimed t u fits won same lasts =
      let e = claimed fits won in rw same (rw e (rw get-insert (rw str_eq_refl (ground arith))))

  -- While the lease lasts and nobody has written the key, no other `add` of it succeeds, and the
  -- attempt changes no entry.
  pub lock_excludes :
      (v' : Bytes) (ttl' : ℕ) (u : World)
      → Fits w ttl
      → (Memory.add k v ttl w).0 ≡ ok true
      → Untouched u
      → Fits u ttl'
      → Lasts w ttl (check_time u ttl')
      → ((Memory.add k v' ttl' u).0 ≡ ok false) × ((Memory.add k v' ttl' u).1.map ≡ u.map)
  lock_excludes v' ttl' u fits won same fits' lasts =
      ground
        (arith, add_exact k v' ttl' u fits', view-claimed (check_time u ttl') u fits won same lasts)

  -- Then `delete_if` removes the key for the token that claimed it, and for no other; a failed
  -- attempt changes no entry.
  pub lock_released_by_owner :
      (v' : Bytes) (u : World)
      → Fits w ttl
      → (Memory.add k v ttl w).0 ≡ ok true
      → Untouched u
      → Lasts w ttl (present u)
      → ((Memory.delete_if k v' u).0 ≡ ok (str_eq v v'))
        × ((Memory.delete_if k v' u).1.map ≡ (if str_eq v v' then Assoc.remove k u.map else u.map))
  lock_released_by_owner v' u fits won same lasts =
      ground (arith, delete_if_exact k v' u, view-claimed (present u) u fits won same lasts)
