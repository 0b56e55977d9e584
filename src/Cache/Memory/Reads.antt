-- ===== src/Cache/Memory/Reads.antt =====
-- The reading operations of the memory driver agree on what is live.
use runtime_rs.Base.{
  ℕ, ◌-◌, ◌≡◌, refl, fun_ext, Bool, Option, none, some, Str, Bytes, arith, List, [], ◌∷◌,
}
use runtime_rs.Cache.Outcome.{Outcome, Exec, ok, err, not_found, panic, ◌>>=◌, pure}
use runtime_rs.Cache.Memory
use runtime_rs.Cache.Memory.{Entry, World}
use runtime_rs.Cache.Memory.View.{view, present, answer, occupied}

-- Whatever the state, `get` returns the bytes of the entry that is live at the reading that it
-- makes, or `NotFound`, and changes no entry.
pub get-view :
    (k : Str) (w : World)
    → ((Memory.get k w).0 ≡ answer (view (present w) w k)) × ((Memory.get k w).1.map ≡ w.map)
unfolding Memory.get
get-view k w = ground arith

-- Whatever the state, `exists` tells whether the entry is live at the reading that it makes, and
-- changes no entry.
pub exists-view :
    (k : Str) (w : World)
    → ((Memory.exists k w).0 ≡ ok (occupied (view (present w) w k)))
      × ((Memory.exists k w).1.map ≡ w.map)
unfolding Memory.exists
exists-view k w = ground arith

-- A call that may miss, as an `Option`: what a loop of `get` calls makes of each.
abbrev pub attempt {ℓ} : {A : Type ℓ} → Outcome A → Outcome (Option A)
attempt (ok a) = ok (some a)
attempt (err not_found) = ok none
attempt (err e) = err e
attempt panic = panic

abbrev pub get_each : List Str → Exec World (List (Option Bytes))
get_each [] = pure []
get_each (k ∷ ks) = do
  found ← (λ w. (attempt (Memory.get k w).0, (Memory.get k w).1))
  rest ← get_each ks
  pure (found ∷ rest)

-- `get_many` is the loop of `get` calls, in order, with `none` for each miss.
pub get_many-get_each : (ks : List Str) (w : World) → Memory.get_many ks w ≡ get_each ks w
unfolding Memory.get_many Memory.get
get_many-get_each [] w = refl
get_many-get_each (k ∷ ks) w = rw (fun_ext (get_many-get_each ks)) (ground arith)

-- The remaining lease.
abbrev pub lease_answer : ℕ → Option Entry → Outcome ℕ
lease_answer t none = err not_found
lease_answer t (some e) = elim e.expires_at [ none ↦ ok 0 | some expiry ↦ ok (expiry - t) ]

-- Whatever the state, `ttl` returns what is left of the lease that is live at the reading that it
-- makes, zero for a permanent entry, or `NotFound`, and changes no entry.
pub ttl-view :
    (k : Str) (w : World)
    → ((Memory.ttl k w).0 ≡ lease_answer (present w) (view (present w) w k))
      × ((Memory.ttl k w).1.map ≡ w.map)
unfolding Memory.ttl
ttl-view k w = ground arith

abbrev pub exists_each : List Str → Exec World (List Bool)
exists_each [] = pure []
exists_each (k ∷ ks) = do found ← Memory.exists k; rest ← exists_each ks; pure (found ∷ rest)

-- `exists_many` is the loop of `exists` calls, in order.
pub exists_many-exists_each :
    (ks : List Str) (w : World) → Memory.exists_many ks w ≡ exists_each ks w
unfolding Memory.exists_many
exists_many-exists_each [] w = refl
exists_many-exists_each (k ∷ ks) w = rw (fun_ext (exists_many-exists_each ks)) refl
