-- ===== src/Cache/Sets/Members.antt =====
-- What the sets in memory contain after a change.
use runtime_rs.Base.{
  refl, Bool, if◌then◌else◌, ◌≡◌, ◌&&◌, ◌||◌, not, true, List, [], ◌∷◌, none, some, Str, str_eq,
  str_eq_iff, str_eq_refl, arith, Option-cases, inl, inr,
}
use runtime_rs.Base.Assoc
use runtime_rs.Base.Assoc.{get-insert, get-remove}
use runtime_rs.Cache.Outcome.{ok}
use runtime_rs.Cache.Sets
use runtime_rs.Cache.Sets.{
  MemorySets, contains, members_of, insert_all, remove_member, remove_all, put_back,
}

has_member :
    (x id : Str) (set : List Str)
    → contains id set ≡ true
    → str_eq id x ≡ true
    → contains x set ≡ true
has_member x id (y ∷ set) h same =
    ground (arith, has_member x id set, str_eq_iff y x, str_eq_iff y id, str_eq_iff id x)
has_member x id [] h same = ground arith

-- Whatever was in the set, adding one member makes it contain that one besides.
pub contains-set_add :
    (x id key : Str) (sets : MemorySets)
    → contains x (members_of key (Sets.set_add key (id ∷ []) sets).1)
      ≡ (contains x (members_of key sets) || str_eq id x)
unfolding Sets.set_add insert_all members_of
contains-set_add x id key sets = ground (
  arith,
  get-insert key key (members_of key sets) sets,
  get-insert key key (id ∷ members_of key sets) sets,
  str_eq_refl key,
  str_eq_iff id x,
  has_member x id (members_of key sets),
)

contains-remove_member :
    (x id : Str) (set : List Str)
    → contains x (remove_member id set) ≡ (contains x set && not (str_eq id x))
unfolding remove_member
contains-remove_member x id [] = ground arith
contains-remove_member x id (y ∷ set) =
    ground
      (arith, contains-remove_member x id set, str_eq_iff y id, str_eq_iff y x, str_eq_iff id x)

members-put_back :
    (key : Str) (set : List Str) (sets : MemorySets) → members_of key (put_back key set sets) ≡ set
unfolding members_of put_back
members-put_back key [] sets = ground (arith, get-remove key key sets, str_eq_refl key)
members-put_back key (y ∷ set) sets =
    ground (arith, get-insert key key (y ∷ set) sets, str_eq_refl key)

members_none :
    (key : Str) (sets : MemorySets) → Assoc.get key sets ≡ none → members_of key sets ≡ []
unfolding members_of
members_none key sets gone = ground arith

members_some :
    (key : Str) (sets : MemorySets) (set : List Str)
    → Assoc.get key sets ≡ some set
    → members_of key sets ≡ set
unfolding members_of
members_some key sets set there = ground arith

-- Removing one member leaves all others.
pub contains-set_remove :
    (x id key : Str) (sets : MemorySets)
    → contains x (members_of key (Sets.set_remove key (id ∷ []) sets).1)
      ≡ (contains x (members_of key sets) && not (str_eq id x))
unfolding Sets.set_remove remove_all
contains-set_remove x id key sets = elim (Option-cases (Assoc.get key sets)) [
  | inl gone ↦ ground (arith, members_none key sets gone)
  | inr (set, there) ↦ ground (
    arith,
    members_some key sets set there,
    members-put_back key (remove_member id set) sets,
    contains-remove_member x id set,
  )
]

contains-remove_all :
    (x : Str) (ids set : List Str)
    → contains x (remove_all ids set) ≡ (contains x set && not (contains x ids))
unfolding remove_all
contains-remove_all x [] set = ground arith
contains-remove_all x (id ∷ ids) set =
    ground
      (arith, contains-remove_all x ids (remove_member id set), contains-remove_member x id set)

-- Removing members leaves all others, whether the set was there or not.
pub contains-set_remove_all :
    (x key : Str) (ids : List Str) (sets : MemorySets)
    → contains x (members_of key (Sets.set_remove key ids sets).1)
      ≡ (contains x (members_of key sets) && not (contains x ids))
unfolding Sets.set_remove
contains-set_remove_all x key ids sets = elim (Option-cases (Assoc.get key sets)) [
  | inl gone ↦ ground (arith, members_none key sets gone)
  | inr (set, there) ↦ ground (
    arith,
    members_some key sets set there,
    members-put_back key (remove_all ids set) sets,
    contains-remove_all x ids set,
  )
]

contains-insert_all :
    (x : Str) (ids set : List Str)
    → contains x (insert_all ids set) ≡ (contains x set || contains x ids)
unfolding insert_all
contains-insert_all x [] set = ground arith
contains-insert_all x (id ∷ ids) set = ground (
  arith,
  contains-insert_all x ids set,
  contains-insert_all x ids (id ∷ set),
  has_member x id set,
)

-- Whether `x` is in the set of the key.
abbrev pub has : MemorySets → Str → Str → Bool
has sets key x = contains x (members_of key sets)

members-insert :
    (key j : Str) (set : List Str) (sets : MemorySets)
    → members_of j (Assoc.insert key set sets) ≡ (if str_eq key j then set else members_of j sets)
unfolding members_of
members-insert key j set sets = ground (arith, get-insert key j set sets)

members-put_back_at :
    (key j : Str) (set : List Str) (sets : MemorySets)
    → members_of j (put_back key set sets) ≡ (if str_eq key j then set else members_of j sets)
unfolding members_of put_back
members-put_back_at key j [] sets = ground (arith, get-remove key j sets)
members-put_back_at key j (y ∷ set) sets = ground (arith, get-insert key j (y ∷ set) sets)

-- `set_add` puts the members into the set of its key, and changes nothing else.
pub has-set_add :
    (sets : MemorySets) (key j x : Str) (ids : List Str)
    → has (Sets.set_add key ids sets).1 j x ≡ (has sets j x || (str_eq key j && contains x ids))
unfolding Sets.set_add
has-set_add sets key j x ids = ground (
  arith,
  members-insert key j (insert_all ids (members_of key sets)) sets,
  contains-insert_all x ids (members_of key sets),
  str_eq_iff key j,
)

-- `set_remove` takes the members out of the set of its key, and changes nothing else.
pub has-set_remove :
    (sets : MemorySets) (key j x : Str) (ids : List Str)
    → has (Sets.set_remove key ids sets).1 j x
      ≡ (has sets j x && not (str_eq key j && contains x ids))
unfolding Sets.set_remove
has-set_remove sets key j x ids = elim (Option-cases (Assoc.get key sets)) [
  | inl gone ↦ ground (arith, members_none key sets gone, str_eq_iff key j)
  | inr (set, there) ↦ ground (
    arith,
    members_some key sets set there,
    members-put_back_at key j (remove_all ids set) sets,
    contains-remove_all x ids set,
    str_eq_iff key j,
  )
]

pub set_add-ok :
    (key : Str) (ids : List Str) (sets : MemorySets) → (Sets.set_add key ids sets).0 ≡ ok tt
unfolding Sets.set_add
set_add-ok key ids sets = refl

pub set_remove-ok :
    (key : Str) (ids : List Str) (sets : MemorySets) → (Sets.set_remove key ids sets).0 ≡ ok tt
unfolding Sets.set_remove
set_remove-ok key ids sets = ground arith
