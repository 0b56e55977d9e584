-- ===== src/Cache/Memory/Writes.antt =====
-- What each writing operation of the memory driver changes, on every branch.
use runtime_rs.Base.{
  true, ℕ, any, Bool-cases, inl, inr, ◌+◌, ◌<◌, ◌≡◌, ◌⊎◌, refl, if◌then◌else◌, Option, none, some,
  Str, Bytes, arith, Option-cases, str_eq, str_eq_iff, List, [], ◌∷◌, not,
}
use runtime_rs.Base.Assoc
use runtime_rs.Base.Assoc.{get-insert, get-remove}
use runtime_rs.Cache.Outcome.{ok, err, not_found}
use runtime_rs.Cache.Memory
use runtime_rs.Cache.Memory.{Entry, World}
use runtime_rs.Cache.Memory.View.{alive, view, present, occupied, Fits, leased, check_time}

module _ (k : Str) (v : Bytes) (ttl : ℕ) (w : World) where
  set-map :
      Fits w ttl
      → ((Memory.set k v ttl w).0 ≡ ok tt)
        × ((Memory.set k v ttl w).1.map ≡ Assoc.insert k (leased w v ttl) w.map)
  unfolding Memory.set
  set-map h = ground arith

  -- A `set` whose lease fits the clock succeeds, and changes what is seen at any time under its own
  -- key only: there the new entry is seen as long as its lease lasts.
  pub set_exact :
      (t : ℕ) (j : Str)
      → Fits w ttl
      → ((Memory.set k v ttl w).0 ≡ ok tt)
        × (view t (Memory.set k v ttl w).1 j
            ≡ (if str_eq k j then alive t (some (leased w v ttl)) else view t w j))
  set_exact t j h = ((set-map h).0, rw ((set-map h).1) (rw get-insert (ground arith)))

  -- An `add` whose lease fits the clock tells whether the key had no live entry at the time it
  -- looked; it stores the entry then, and changes nothing else.
  pub add_exact :
      Fits w ttl
      → ((Memory.add k v ttl w).0 ≡ ok (not (occupied (view (check_time w ttl) w k))))
        × ((Memory.add k v ttl w).1.map ≡ (
            if occupied (view (check_time w ttl) w k)
            then w.map
            else Assoc.insert k (leased w v ttl) w.map))
  unfolding Memory.add
  add_exact h = ground arith

  -- A `replace` whose lease fits the clock tells whether the key had a live entry at the time it
  -- looked; it stores the new entry then, and changes nothing else.
  pub replace_exact :
      Fits w ttl
      → ((Memory.replace k v ttl w).0 ≡ ok (occupied (view (check_time w ttl) w k)))
        × ((Memory.replace k v ttl w).1.map ≡ (
            if occupied (view (check_time w ttl) w k)
            then Assoc.insert k (leased w v ttl) w.map
            else w.map))
  unfolding Memory.replace
  replace_exact h = ground arith

-- `delete` never fails and removes exactly the keys that it is given: what is seen of a key
-- afterwards, at any time, is nothing for these and what was seen before for all others.
pub delete_exact :
    (ks : List Str) (w : World) (t : ℕ) (j : Str)
    → ((Memory.delete ks w).0 ≡ ok tt)
      × (view t (Memory.delete ks w).1 j ≡ (if any (λ k. str_eq k j) ks then none else view t w j))
unfolding Memory.delete
delete_exact [] w t j = (refl, refl)
delete_exact (k ∷ ks) w t j =
    let rest = delete_exact ks (record w { map = Assoc.remove k w.map }) t j in
    (rest.0, ground (arith, rest.1, get-remove k j w.map))

-- Where every lease that it may give fits the platform's clock, `touch` succeeds exactly where the
-- entry is live, and else returns `NotFound`.
pub touch_exact :
    (k : Str) (ttl : ℕ) (w : World)
    → ((n : ℕ) → w.clock n + ttl < w.horizon)
    → (Memory.touch k ttl w).0 ≡ (if occupied (view (present w) w k) then ok tt else err not_found)
unfolding Memory.touch
touch_exact k ttl w h = ground (arith, h w.reads, h (w.reads + 1))

abbrev pub bytes_of : Option Entry → Option Bytes
bytes_of none = none
bytes_of (some e) = some e.value

module _ (k j : Str) (e : Entry) (w : World) (there : Assoc.get k w.map ≡ some e) where
  insert_keeps_bytes :
      (expiry : Option ℕ)
      → bytes_of (Assoc.get j (Assoc.insert k (record e { expires_at = expiry }) w.map))
        ≡ bytes_of (Assoc.get j w.map)
  insert_keeps_bytes expiry = rw get-insert (elim (Bool-cases (str_eq k j)) [
    | inl same ↦ rw same (cc (there, (str_eq_iff k j).0 same))
    | inr other ↦ rw other
  ])

-- Whatever comes of a `touch`, no key gains, loses or changes its bytes.
pub touch_keeps_bytes :
    (k j : Str) (ttl : ℕ) (w : World)
    → bytes_of (Assoc.get j (Memory.touch k ttl w).1.map) ≡ bytes_of (Assoc.get j w.map)
unfolding Memory.touch
touch_keeps_bytes k j ttl w = elim (Option-cases (Assoc.get k w.map)) [
  | inl gone ↦ ground arith
  | inr (e, there) ↦ ground (
    arith,
    insert_keeps_bytes k j e w there none,
    insert_keeps_bytes k j e w there (some (w.clock w.reads + ttl)),
    insert_keeps_bytes k j e w there (some (w.clock (w.reads + 1) + ttl)),
  )
]

-- However a `replace` ends, it has changed no entry or found a live one under its key.
pub replace_needs_entry :
    (k : Str) (v : Bytes) (ttl : ℕ) (w : World)
    → ((Memory.replace k v ttl w).1.map ≡ w.map) ⊎ (occupied (view (check_time w ttl) w k) ≡ true)
unfolding Memory.replace
replace_needs_entry k v ttl w = ground arith
