-- ===== src/Cache/Memory/Refines.antt =====
-- The memory driver keeps the contract.
use runtime_rs.Base.{
  Option-cases, inl, inr, ℕ, ◌+◌, ◌≡◌, refl, ap, List, [], ◌∷◌, Str, Bytes, arith,
}
use runtime_rs.Base.Assoc
use runtime_rs.Base.Assoc.{get-insert, get-remove}
use runtime_rs.Cache.Memory
use runtime_rs.Cache.Memory.{Entry, World}
use runtime_rs.Cache.Memory.View.{view}
use runtime_rs.Cache.Memory.Ticks.{delete_ticks}
use runtime_rs.Cache.Memory.Writes.{delete_exact}
use runtime_rs.Cache.Memory.Contract.{
  Call, wait, get, exists, remaining, set, add, replace, touch, delete, delete_if, Answer, Store,
  promised, answered, run, entry, ending,
}

-- The world stands still at the store's time, and shows the store's entries.
pub record Shows (w : World) (a : Store) : Type 0 where
  pub still : (n : ℕ) → w.clock n ≡ a.time
  pub horizon : w.horizon ≡ a.horizon
  pub seen : (j : Str) → view a.time w j ≡ a.seen j

abbrev pub Agree : Answer × World → Answer × Store → Type 0
Agree r p = (r.0 ≡ p.0) × Shows r.1 p.1

module _ (w : World) (a : Store) (h : Shows w a) where
  get_agrees : (k : Str) → Agree (answered (get k) w) (promised (get k) a)
  unfolding Memory.get
  get_agrees k = (
    ground (arith, h.seen k, h.still w.reads, h.still (w.reads + 1), h.horizon),
    record {
      still = λ n. ground (arith, h.still n);
      horizon = ground (arith, h.horizon);
      seen = λ j.
          ground (arith, h.seen k, h.still w.reads, h.still (w.reads + 1), h.horizon, h.seen j);
    },
  )

  exists_agrees : (k : Str) → Agree (answered (exists k) w) (promised (exists k) a)
  unfolding Memory.exists
  exists_agrees k = (
    ground (arith, h.seen k, h.still w.reads, h.still (w.reads + 1), h.horizon),
    record {
      still = λ n. ground (arith, h.still n);
      horizon = ground (arith, h.horizon);
      seen = λ j.
          ground (arith, h.seen k, h.still w.reads, h.still (w.reads + 1), h.horizon, h.seen j);
    },
  )

  remaining_agrees : (k : Str) → Agree (answered (remaining k) w) (promised (remaining k) a)
  unfolding Memory.ttl
  remaining_agrees k = (
    ground (arith, h.seen k, h.still w.reads, h.still (w.reads + 1), h.horizon),
    record {
      still = λ n. ground (arith, h.still n);
      horizon = ground (arith, h.horizon);
      seen = λ j.
          ground (arith, h.seen k, h.still w.reads, h.still (w.reads + 1), h.horizon, h.seen j);
    },
  )

  set_agrees :
      (k : Str) (v : Bytes) (t : ℕ) → Agree (answered (set k v t) w) (promised (set k v t) a)
  unfolding Memory.set
  set_agrees k v t = (
    ground (arith, h.seen k, h.still w.reads, h.still (w.reads + 1), h.horizon),
    record {
      still = λ n. ground (arith, h.still n);
      horizon = ground (arith, h.horizon);
      seen = λ j. ground (
        arith,
        h.seen k,
        h.still w.reads,
        h.still (w.reads + 1),
        h.horizon,
        h.seen j,
        get-insert k j (entry v t a) w.map,
      );
    },
  )

  add_agrees :
      (k : Str) (v : Bytes) (t : ℕ) → Agree (answered (add k v t) w) (promised (add k v t) a)
  unfolding Memory.add
  add_agrees k v t = (
    ground (arith, h.seen k, h.still w.reads, h.still (w.reads + 1), h.horizon),
    record {
      still = λ n. ground (arith, h.still n);
      horizon = ground (arith, h.horizon);
      seen = λ j. ground (
        arith,
        h.seen k,
        h.still w.reads,
        h.still (w.reads + 1),
        h.horizon,
        h.seen j,
        get-insert k j (entry v t a) w.map,
      );
    },
  )

  replace_agrees :
      (k : Str) (v : Bytes) (t : ℕ)
      → Agree (answered (replace k v t) w) (promised (replace k v t) a)
  unfolding Memory.replace
  replace_agrees k v t = (
    ground (arith, h.seen k, h.still w.reads, h.still (w.reads + 1), h.horizon),
    record {
      still = λ n. ground (arith, h.still n);
      horizon = ground (arith, h.horizon);
      seen = λ j. ground (
        arith,
        h.seen k,
        h.still w.reads,
        h.still (w.reads + 1),
        h.horizon,
        h.seen j,
        get-insert k j (entry v t a) w.map,
      );
    },
  )

  delete_if_agrees :
      (k : Str) (v : Bytes) → Agree (answered (delete_if k v) w) (promised (delete_if k v) a)
  unfolding Memory.delete_if
  delete_if_agrees k v = (
    ground (arith, h.seen k, h.still w.reads, h.still (w.reads + 1), h.horizon),
    record {
      still = λ n. ground (arith, h.still n);
      horizon = ground (arith, h.horizon);
      seen = λ j. ground (
        arith,
        h.seen k,
        h.still w.reads,
        h.still (w.reads + 1),
        h.horizon,
        h.seen j,
        get-remove k j w.map,
      );
    },
  )

  touch_agrees : (k : Str) (t : ℕ) → Agree (answered (touch k t) w) (promised (touch k t) a)
  unfolding Memory.touch
  touch_agrees k t = elim (Option-cases (Assoc.get k w.map)) [
    | inl gone ↦ (
      ground (arith, gone, h.seen k),
      record {
        still = λ n. ground (arith, gone, h.seen k, h.still n);
        horizon = ground (arith, gone, h.seen k, h.horizon);
        seen = λ j. ground (arith, gone, h.seen k, h.seen j);
      },
    )
    | inr (e, there) ↦
        let renewed : Entry = record e { expires_at = ending t a } in
        (
          ground (arith, there, h.seen k, h.still w.reads, h.still (w.reads + 1), h.horizon),
          record {
            still = λ n. ground (
              arith,
              there,
              h.seen k,
              h.still n,
              h.still w.reads,
              h.still (w.reads + 1),
              h.horizon,
            );
            horizon =
                ground (arith, there, h.seen k, h.still w.reads, h.still (w.reads + 1), h.horizon);
            seen = λ j. ground (
              arith,
              there,
              h.seen k,
              h.seen j,
              h.still w.reads,
              h.still (w.reads + 1),
              h.horizon,
              get-insert k j renewed w.map,
            );
          },
        )
  ]

  delete_agrees : (ks : List Str) → Agree (answered (delete ks) w) (promised (delete ks) a)
  delete_agrees ks = (
    ground (arith, delete_exact ks w a.time []),
    record {
      still = λ n. ground (arith, h.still n, delete_ticks ks w);
      horizon = ground (arith, h.horizon, delete_ticks ks w);
      seen = λ j. ground (arith, h.seen j, delete_exact ks w a.time j);
    },
  )

  wait_agrees : (d : ℕ) → Agree (answered (wait d) w) (promised (wait d) a)
  wait_agrees d = (
    refl,
    record {
      still = λ n. ground (arith, h.still n);
      horizon = h.horizon;
      seen = λ j. ground (arith, h.seen j);
    },
  )

call_agrees :
    (call : Call) (w : World) (a : Store) → Shows w a → Agree (answered call w) (promised call a)
call_agrees (wait d) w a h = wait_agrees w a h d
call_agrees (get k) w a h = get_agrees w a h k
call_agrees (exists k) w a h = exists_agrees w a h k
call_agrees (remaining k) w a h = remaining_agrees w a h k
call_agrees (set k v t) w a h = set_agrees w a h k v t
call_agrees (add k v t) w a h = add_agrees w a h k v t
call_agrees (replace k v t) w a h = replace_agrees w a h k v t
call_agrees (touch k t) w a h = touch_agrees w a h k t
call_agrees (delete ks) w a h = delete_agrees w a h ks
call_agrees (delete_if k v) w a h = delete_if_agrees w a h k v

-- The memory driver keeps the contract of a store whose entries end by themselves: from a state that
-- shows a store, with time passing between calls, any sequence of calls gets the answers that the
-- store promises, panics at the end of the clock included, and leaves a state that shows the store's.
pub run_refines :
    (calls : List Call) (w : World) (a : Store)
    → Shows w a
    → ((run answered calls w).0 ≡ (run promised calls a).0)
      × Shows (run answered calls w).1 (run promised calls a).1
run_refines [] w a h = (refl, h)
run_refines (call ∷ calls) w a h =
    let first = call_agrees call w a h in
    let rest = run_refines calls (answered call w).1 (promised call a).1 first.1 in
    (rw (first.0) (ap (λ answers. (promised call a).0 ∷ answers) rest.0), rest.1)
