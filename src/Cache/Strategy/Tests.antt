-- ===== src/Cache/Strategy/Tests.antt =====
-- The Document strategy at concrete inputs.
use runtime_rs.Base.{
  str_eq_refl, str_eq_iff, ◌==◌, if◌then◌else◌, Bool, ◌+◌, ◌≡◌, refl, true, false, List, [], ◌∷◌,
  none, some, Str, codes, arith, inr,
}
use runtime_rs.Base.Assoc
use runtime_rs.Cache.Outcome.{Outcome, ok, err, overloaded}
use runtime_rs.Cache.Memory.View.{present}
use runtime_rs.Cache.Keyspace.{Keyspace}
use runtime_rs.Cache.Policy.{Options}
use runtime_rs.Cache.Strategy
use runtime_rs.Cache.Strategy.{DocumentImpl, document}
use runtime_rs.Cache.Strategy.OnMemory.{Shared, impl, entry_key-str_eq}
use runtime_rs.Cache.Strategy.Values.{get-create}
use runtime_rs.Cache.Strategy.Sweep.{keys-IsListed}
use runtime_rs.Cache.Sets.{members_of}
use runtime_rs.Cache.Strategy.Listing.{IsListed, unreliable, create-IsListed}

abbrev k : Str
k = codes "k"

abbrev base : Keyspace
base = record { base = codes "cache:" }

-- The clock ticks once with every reading.
abbrev empty : Shared
empty = (record { clock = λ i. 100 + i; reads = 0; horizon = 10_000; map = [] }, [])

abbrev fresh : Shared → Str
fresh _ = codes "new"

abbrev order : List Str → List Str
order members = members

abbrev d : DocumentImpl Shared
d = impl base document 50 true order fresh

abbrev named : Options
named = record { id = some k; ttl = none; stale = none; indexes = none; permanent = false }

empty-IsListed : IsListed base document 50 true order fresh 100 empty
unfolding Assoc.get
empty-IsListed id t late seen = absurd (ground (arith, seen))

abbrev later : Shared
later = (record empty.0 { map = (Strategy.create d (7 ∷ []) named empty).1.0.map; reads = 9 }, [])

get-create_example :
    ((Strategy.create d (7 ∷ []) named empty).0 ≡ ok k) × ((Strategy.get d k later).0 ≡ ok (7 ∷ []))
unfolding Strategy.resolve_ttl
get-create_example =
    get-create base document 50 true order fresh (7 ∷ []) named k 50 empty later refl refl
      (inr (ground arith)) refl (inr (ground arith))

abbrev gone : Shared
gone = (Strategy.delete d k later).1

-- Sets that answer once and then fail.
abbrev answer : Shared → Outcome {0} Unit
answer s = if s.0.reads == 0 then ok tt else err overloaded

abbrev adds : Shared → Bool
adds s = s.0.reads == 0

adds_answered : (s : Shared) → answer s ≡ ok tt → adds s ≡ true
adds_answered s e = ground (arith, e)

create-IsListed_example :
    IsListed base document 50 true order fresh 100
      (Strategy.create
        (unreliable base document 50 true order fresh answer adds adds_answered)
        (7 ∷ [])
        named
        empty).1
create-IsListed_example =
    create-IsListed base document 50 true order fresh answer adds adds_answered 100 (7 ∷ []) named
      empty empty-IsListed

-- One live entry, listed beside one that has gone.
abbrev stocked : Shared
stocked = (
  record empty.0 {
    map = (Strategy.entry_key d k, record { value = 7 ∷ []; expires_at = none }) ∷ [];
  },
  (Strategy.index_key d, codes "gone" ∷ k ∷ []) ∷ [],
)

stocked-IsListed : IsListed base document 50 true order fresh 100 stocked
unfolding Assoc.get members_of
stocked-IsListed id t late seen =
    ground
      (arith, entry_key-str_eq d k id, seen, str_eq_refl (Strategy.index_key d), str_eq_iff k id)

keys-IsListed_example :
    IsListed base document 50 true order fresh
      (present (Strategy.keys d stocked).1.0)
      (Strategy.keys d stocked).1
keys-IsListed_example =
    keys-IsListed base document 50 true order fresh stocked (λ m n h. omega arith) stocked-IsListed
