-- ===== src/Cache/Memory/Tests.antt =====
-- Cache.Memory at concrete inputs.
use runtime_rs.Cache.Memory.Contract.{
  Call, get, set, add, exists, wait, Store, run, answered, promised,
}
use runtime_rs.Cache.Memory.Refines.{run_refines}
use runtime_rs.Base.{
  List, none, ◌+◌, ◌≡◌, refl, inr, false, some, Str, [], ◌∷◌, codes, arith, str_eq,
}
use runtime_rs.Base.Assoc
use runtime_rs.Cache.Outcome.{ok}
use runtime_rs.Cache.Memory
use runtime_rs.Cache.Memory.{Entry, World}
use runtime_rs.Cache.Memory.Locks.{lock_excludes}

program : Unit {0}
unfolding Memory.get Memory.set Memory.add Memory.replace Memory.delete Memory.touch
    Memory.delete_if Memory.ttl Assoc.get Assoc.insert Assoc.remove str_eq
program = tt

abbrev k : Str
k = codes "k"

-- The clock ticks once with every reading.
abbrev empty : World
empty = record { clock = λ i. 100 + i; reads = 0; horizon = 10_000; map = [] }

abbrev one : World
one = record empty { map = (k, record { value = 7 ∷ []; expires_at = some 200 }) ∷ [] }

abbrev locked : World
locked = (Memory.add k (1 ∷ []) 50 empty).1

lock_excludes_example : (Memory.add k (2 ∷ []) 20 locked).0 ≡ ok false
unfolding program
lock_excludes_example =
    (lock_excludes k (1 ∷ []) 50 empty (2 ∷ []) 20 locked (inr (ground arith)) refl refl
      (inr (ground arith)) (inr (ground arith))).0

-- A clock that stands still, and the store that it shows.
abbrev frozen : World
frozen = record { clock = λ _. 100; reads = 0; horizon = 10_000; map = [] }

abbrev nothing : Store
nothing = record { time = 100; horizon = 10_000; seen = λ _. none }

abbrev session : List Call
session = set k (7 ∷ []) 50 ∷ wait 60 ∷ get k ∷ add k (8 ∷ []) 0 ∷ exists k ∷ []

run_refines_example : (run answered session frozen).0 ≡ (run promised session nothing).0
unfolding Assoc.get
run_refines_example =
    (run_refines session frozen nothing
      (record { still = λ _. refl; horizon = refl; seen = λ _. refl })).0
