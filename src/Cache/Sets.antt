-- ===== src/Cache/Sets.antt =====
-- cache/src/core/sets.rs: server-side sets, and the sets in process memory. A hash set is the list
-- of its members; `iterate` is the order, which is left open, in which it gives them.
pub mod Members
use runtime_rs.Base.{if◌then◌else◌, Bool, List, [], ◌∷◌, Option, none, some, Str, any, str_eq}
use runtime_rs.Base.Assoc
use runtime_rs.Base.Assoc.{Map}
use runtime_rs.Cache.Outcome.{Exec, ok, ◌>>=◌, pure}

pub record Sets (S : Type 0) : Type 0 where
  pub set_add : Str → List Str → Exec S Unit
  pub set_remove : Str → List Str → Exec S Unit
  pub set_members : Str → Exec S (List Str)

-- A visitor keeps a state of its own beside the backend's.
abbrev pub Visitor : Type 0 → Type 0 → Type 0
Visitor S V = List Str → Exec (S × V) Unit

pub record SetScanner (S : Type 0) : Type 1 where
  pub set_scan : (V : Type 0) → Str → Visitor S V → Exec (S × V) Unit

abbrev pub MemorySets : Type 0
MemorySets = Map (List Str)

abbrev pub contains : Str → List Str → Bool
contains x = any (λ member. str_eq member x)

-- `HashSet::insert` for each member.
unfoldable pub insert_all : List Str → List Str → List Str
insert_all [] set = set
insert_all (member ∷ members) set =
    let added = insert_all members (member ∷ set) in
    let kept = insert_all members set in if contains member set then kept else added

-- `HashSet::remove` for one member.
unfoldable pub remove_member : Str → List Str → List Str
remove_member x [] = []
remove_member x (member ∷ set) =
    let rest = remove_member x set in if str_eq member x then rest else member ∷ rest

unfoldable pub remove_all : List Str → List Str → List Str
unfolding remove_member
remove_all [] set = set
remove_all (member ∷ members) set = remove_all members (remove_member member set)

-- An empty set is taken out of the map.
unfoldable pub put_back : Str → List Str → MemorySets → MemorySets
put_back key [] sets = Assoc.remove key sets
put_back key (member ∷ set) sets = Assoc.insert key (member ∷ set) sets

-- The set of the key, empty if there is none: `or_insert_with(HashSet::new)`.
unfoldable pub members_of : Str → MemorySets → List Str
members_of key sets = elim (Assoc.get key sets) [ none ↦ [] | some set ↦ set ]

unfoldable pub set_add : Str → List Str → Exec MemorySets Unit
unfolding insert_all
set_add key members sets = (ok tt, Assoc.insert key (insert_all members (members_of key sets)) sets)

unfoldable pub set_remove : Str → List Str → Exec MemorySets Unit
unfolding put_back remove_all
set_remove key members sets = elim (Assoc.get key sets) [
  | none ↦ (ok tt, sets)
  | some set ↦ (ok tt, put_back key (remove_all members set) sets)
]

module _ (iterate : List Str → List Str) where
  unfoldable pub set_members : Str → Exec MemorySets (List Str)
  set_members key sets = elim (Assoc.get key sets) [
    | none ↦ (ok [], sets)
    | some set ↦ (ok (iterate set), sets)
  ]

  -- The capability over the sets in memory.
  abbrev pub memory_sets : Sets MemorySets
  memory_sets = record { set_add = set_add; set_remove = set_remove; set_members = set_members }
