-- ===== src/Cache/Memory/Frames.antt =====
-- The writing operations of the memory driver write their own key only, however they end.
use runtime_rs.Base.{
  ℕ, inl, inr, ◌+◌, ◌≡◌, false, none, some, Str, Bytes, arith, Option-cases, str_eq, [], ◌∷◌,
}
use runtime_rs.Base.Assoc
use runtime_rs.Base.Assoc.{get-insert, get-remove}
use runtime_rs.Cache.Memory
use runtime_rs.Cache.Memory.{Entry, World}
use runtime_rs.Cache.Memory.View.{leased}

-- `w'` has the entries of `w` under every key but `k`.
abbrev pub OnlyAt : Str → World → World → Type 0
OnlyAt k w w' = (j : Str) → str_eq k j ≡ false → Assoc.get j w'.map ≡ Assoc.get j w.map

module _ (k : Str) where
  get-insert_ne :
      (j : Str) (e : Entry) (w : World)
      → str_eq k j ≡ false
      → Assoc.get j (Assoc.insert k e w.map) ≡ Assoc.get j w.map
  get-insert_ne j e w h = rw get-insert (rw h)

  pub set-OnlyAt : (v : Bytes) (ttl : ℕ) (w : World) → OnlyAt k w (Memory.set k v ttl w).1
  unfolding Memory.set
  set-OnlyAt v ttl w j h = ground (arith, get-insert_ne j (leased w v ttl) w)

  pub add-OnlyAt : (v : Bytes) (ttl : ℕ) (w : World) → OnlyAt k w (Memory.add k v ttl w).1
  unfolding Memory.add
  add-OnlyAt v ttl w j h = ground (arith, get-insert_ne j (leased w v ttl) w)

  pub replace-OnlyAt : (v : Bytes) (ttl : ℕ) (w : World) → OnlyAt k w (Memory.replace k v ttl w).1
  unfolding Memory.replace
  replace-OnlyAt v ttl w j h = ground (arith, get-insert_ne j (leased w v ttl) w)

  pub delete-OnlyAt : (w : World) → OnlyAt k w (Memory.delete (k ∷ []) w).1
  unfolding Memory.delete
  delete-OnlyAt w j h = rw get-remove (rw h)

  pub delete_if-OnlyAt : (v : Bytes) (w : World) → OnlyAt k w (Memory.delete_if k v w).1
  unfolding Memory.delete_if
  delete_if-OnlyAt v w j h = ground (arith, get-remove k j w.map)

  pub touch-OnlyAt : (ttl : ℕ) (w : World) → OnlyAt k w (Memory.touch k ttl w).1
  unfolding Memory.touch
  touch-OnlyAt ttl w j h = elim (Option-cases (Assoc.get k w.map)) [
    | inl gone ↦ ground arith
    | inr (e, there) ↦ ground (
      arith,
      get-insert_ne j (record e { expires_at = none }) w,
      get-insert_ne j (record e { expires_at = some (w.clock w.reads + ttl) }) w,
      get-insert_ne j (record e { expires_at = some (w.clock (w.reads + 1) + ttl) }) w,
    )
  ]
