-- ===== src/Cache/Memory/Contract.antt =====
-- What cache/src/core/{driver,bulk,leases,fenced}.rs promise of a backend, as a store of entries that
-- end by themselves; and the memory driver's answers to a sequence of calls. Time passes between calls.
use runtime_rs.Base.{
  ℕ, ◌+◌, ◌-◌, ◌==◌, ltb, ◌||◌, any, if◌then◌else◌, Bool, true, false, List, [], ◌∷◌, Option, none,
  some, Str, Bytes, str_eq,
}
use runtime_rs.Cache.Outcome.{Outcome, ok, err, panic, not_found}
use runtime_rs.Cache.Memory
use runtime_rs.Cache.Memory.{Entry, World}
use runtime_rs.Cache.Memory.View.{alive, answer, occupied}

pub data Call : Type 0 where
  wait : ℕ → Call
  get exists remaining : Str → Call
  set add replace : Str → Bytes → ℕ → Call
  touch : Str → ℕ → Call
  delete : List Str → Call
  delete_if : Str → Bytes → Call

pub data Answer : Type 0 where
  bytes : Outcome Bytes → Answer
  told : Outcome Bool → Answer
  lease : Outcome ℕ → Answer
  done : Outcome (Unit {0}) → Answer

-- The store: what is seen of each key at the time `time`; no lease may end at `horizon` or later.
pub record Store : Type 0 where
  pub time : ℕ
  pub horizon : ℕ
  pub seen : Str → Option Entry

abbrev pub put : Str → Option Entry → Store → Store
put k e a = record a { seen = λ j. if str_eq k j then e else a.seen j }

abbrev pub fits : ℕ → Store → Bool
fits ttl a = (ttl == 0) || ltb (a.time + ttl) a.horizon

abbrev pub ending : ℕ → Store → Option ℕ
ending ttl a = if ttl == 0 then none else some (a.time + ttl)

abbrev pub entry : Bytes → ℕ → Store → Entry
entry v ttl a = record { value = v; expires_at = ending ttl a }

abbrev pub left : ℕ → Option Entry → Outcome ℕ
left time none = err not_found
left time (some e) = elim e.expires_at [ none ↦ ok 0 | some expiry ↦ ok (expiry - time) ]

abbrev pub renewed : Str → ℕ → Option Entry → Store → Answer × Store
renewed k ttl none a = (done (err not_found), a)
renewed k ttl (some e) a =
    if fits ttl a
    then (done (ok tt), put k (some (record e { expires_at = ending ttl a })) a)
    else (done panic, a)

abbrev pub released : Str → Bytes → Option Entry → Store → Answer × Store
released k v none a = (told (ok false), a)
released k v (some e) a =
    if str_eq e.value v then (told (ok true), put k none a) else (told (ok false), a)

abbrev pub promised : Call → Store → Answer × Store
promised (wait d) a =
    (done (ok tt), record a { time = a.time + d; seen = λ j. alive (a.time + d) (a.seen j) })
promised (get k) a = (bytes (answer (a.seen k)), a)
promised (exists k) a = (told (ok (occupied (a.seen k))), a)
promised (remaining k) a = (lease (left a.time (a.seen k)), a)
promised (set k v ttl) a =
    if fits ttl a then (done (ok tt), put k (some (entry v ttl a)) a) else (done panic, a)
promised (add k v ttl) a =
    if fits ttl a
    then (if occupied (a.seen k)
        then (told (ok false), a)
        else (told (ok true), put k (some (entry v ttl a)) a))
    else (told panic, a)
promised (replace k v ttl) a =
    if fits ttl a
    then (if occupied (a.seen k)
        then (told (ok true), put k (some (entry v ttl a)) a)
        else (told (ok false), a))
    else (told panic, a)
promised (touch k ttl) a = renewed k ttl (a.seen k) a
promised (delete ks) a =
    (done (ok tt), record a { seen = λ j. if any (λ k. str_eq k j) ks then none else a.seen j })
promised (delete_if k v) a = released k v (a.seen k) a

-- The memory driver's part, at a clock that stands still during a call.
abbrev pub answered : Call → World → Answer × World
answered (wait d) w = let before = w.clock in (done (ok tt), record w { clock = λ n. before n + d })
answered (get k) w = (bytes (Memory.get k w).0, (Memory.get k w).1)
answered (exists k) w = (told (Memory.exists k w).0, (Memory.exists k w).1)
answered (remaining k) w = (lease (Memory.ttl k w).0, (Memory.ttl k w).1)
answered (set k v ttl) w = (done (Memory.set k v ttl w).0, (Memory.set k v ttl w).1)
answered (add k v ttl) w = (told (Memory.add k v ttl w).0, (Memory.add k v ttl w).1)
answered (replace k v ttl) w = (told (Memory.replace k v ttl w).0, (Memory.replace k v ttl w).1)
answered (touch k ttl) w = (done (Memory.touch k ttl w).0, (Memory.touch k ttl w).1)
answered (delete ks) w = (done (Memory.delete ks w).0, (Memory.delete ks w).1)
answered (delete_if k v) w = (told (Memory.delete_if k v w).0, (Memory.delete_if k v w).1)

abbrev pub run {ℓ} : {S : Type ℓ} → (Call → S → Answer × S) → List Call → S → List Answer × S
run step [] s = ([], s)
run step (call ∷ calls) s =
    let first = step call s in let rest = run step calls first.1 in (first.0 ∷ rest.0, rest.1)
