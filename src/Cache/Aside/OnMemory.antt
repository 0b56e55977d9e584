-- ===== src/Cache/Aside/OnMemory.antt =====
-- A view over the memory driver, beside a state `A` of the loader and of what else there is.
use runtime_rs.Base.{
  ◌≤◌, ◌≡◌, some, Str, arith, str_eq, false, append-left_cancel, codes, ◌++◌, str_eq_iff,
}
use runtime_rs.Base.Assoc
use runtime_rs.Cache.Outcome.{Exec}
use runtime_rs.Cache.Driver.{Driver, Fenced}
use runtime_rs.Cache.Keyspace
use runtime_rs.Cache.Keyspace.{Keyspace}
use runtime_rs.Cache.Memory
use runtime_rs.Cache.Memory.{World}
use runtime_rs.Cache.Memory.Frames.{set-OnlyAt}
use runtime_rs.Cache.Memory.Ticks.{get-Ticks, set-Ticks}
use runtime_rs.Cache.Aside.{AsideImpl}
use runtime_rs.Cache.Aside.Effects.{Keeps, Calls}

module _ {A : Type 0} where
  abbrev pub beside : {B : Type 0} → Exec World B → Exec (World × A) B
  beside m s = ((m s.0).0, ((m s.0).1, s.1))

  abbrev pub driver : Driver (World × A)
  driver = record {
    get = λ k. beside (Memory.get k);
    set = λ k v ttl. beside (Memory.set k v ttl);
    add = λ k v ttl. beside (Memory.add k v ttl);
    replace = λ k v ttl. beside (Memory.replace k v ttl);
    delete = λ ks. beside (Memory.delete ks);
    exists = λ k. beside (Memory.exists k);
    touch = λ k ttl. beside (Memory.touch k ttl);
  }

  abbrev pub fenced : Fenced (World × A)
  fenced = record { delete_if = λ k v. beside (Memory.delete_if k v) }

  -- The view with the memory driver in the place of its own, its fencing included.
  abbrev pub on_memory : AsideImpl (World × A) → AsideImpl (World × A)
  on_memory d = record d { driver = driver; fenced = some fenced }

  -- The entry of `k` stays as it is, while the clock may be read.
  abbrev pub Idle : Str → World × A → World × A → Type 0
  Idle k s t =
      (Assoc.get k t.0.map ≡ Assoc.get k s.0.map)
      × (t.0.clock ≡ s.0.clock)
      × (s.0.reads ≤ t.0.reads)

pub entry_differs :
    (ks : Keyspace) (id : Str)
    → str_eq (Keyspace.aside_entry ks id) (Keyspace.aside_lock ks id) ≡ false
unfolding Keyspace.aside_entry Keyspace.aside_lock
entry_differs ks id = ground (
  arith,
  str_eq_iff (ks.base ++ (codes "aside:entry:" ++ id)) (ks.base ++ (codes "aside:lock:" ++ id)),
  append-left_cancel ks.base (codes "aside:entry:" ++ id) (codes "aside:lock:" ++ id),
)

module _ {A : Type 0} (d : AsideImpl (World × A)) (id : Str) where
  abbrev pub lock : Str
  lock = Keyspace.aside_lock d.keyspace id

  -- The calls of a load leave the lock of its id alone, if the loader and the clock do.
  pub lock-Idle :
      ((s : World × A) → Idle lock s (d.outside.now s).1)
      → Keeps (Idle lock) (d.outside.loader id)
      → Calls (World × A) (Idle lock) (on_memory d) id
  lock-Idle clock loads = record {
    same = λ s. ground arith;
    next = λ r t. ground (arith, r, t);
    clock = clock;
    loads = loads;
    gets = λ s. ground (arith, get-Ticks (Keyspace.aside_entry d.keyspace id) s.0);
    sets = λ v ttl s. ground (
      arith,
      set-Ticks (Keyspace.aside_entry d.keyspace id) v ttl s.0,
      set-OnlyAt (Keyspace.aside_entry d.keyspace id) v ttl s.0 lock (entry_differs d.keyspace id),
    );
  }
