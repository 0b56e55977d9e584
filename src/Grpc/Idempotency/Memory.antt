-- ===== src/Grpc/Idempotency/Memory.antt =====
-- grpc/src/idempotency/memory.rs: the store in process memory. `now` is what the store's clock
-- returns when it is read.
use runtime_rs.Base.{ℕ, none, some, Str, codes}
use runtime_rs.Base.Assoc
use runtime_rs.Base.Assoc.{Map}
use runtime_rs.Grpc.Status.{ok, err}
use runtime_rs.Grpc.Idempotency.Contract.{Key, not_found, backend, Exec, Store}

pub record MemoryStore : Type 0 where
  pub keys : Map Key
  pub now : ℕ

unfoldable pub create : Key → Exec MemoryStore Unit
create key s = elim (Assoc.get key.name s.keys) [
  | some existing ↦ (err (backend (codes "duplicate key")), s)
  | none ↦ (
    ok tt,
    record s { keys = Assoc.insert key.name (record key { create_time = some s.now }) s.keys },
  )
]

unfoldable pub get : Str → Exec MemoryStore Key
get name s = elim (Assoc.get name s.keys) [ some key ↦ (ok key, s) | none ↦ (err not_found, s) ]

-- The entry that is there gets the state and the response; the rest of it stays.
unfoldable pub settle : Key → Exec MemoryStore Unit
settle key s = elim (Assoc.get key.name s.keys) [
  | none ↦ (err not_found, s)
  | some current ↦ (
    ok tt,
    record s {
      keys =
          Assoc.insert key.name
            (record current {
              state = key.state;
              response = key.response;
              response_type = key.response_type;
            })
            s.keys;
    },
  )
]

unfoldable pub delete : Str → Exec MemoryStore Unit
delete name s = (ok tt, record s { keys = Assoc.remove name s.keys })

abbrev pub memory_store : Store MemoryStore
memory_store = record { create = create; get = get; settle = settle; delete = delete }
