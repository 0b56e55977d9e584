-- ===== src/Cache/Indexed/Tests.antt =====
-- The secondary sets at concrete inputs.
use runtime_rs.Base.{
  ◌≡◌, refl, ◌&&◌, not, if◌then◌else◌, true, List, [], ◌∷◌, Str, codes, str_eq, arith,
  contains_char,
}
use runtime_rs.Base.Assoc
use runtime_rs.Base.Assoc.{Map}
use runtime_rs.Cache.Outcome.{ok}
use runtime_rs.Cache.Sets.{MemorySets, contains, members_of}
use runtime_rs.Cache.Sets.Members.{has}
use runtime_rs.Cache.Keyspace
use runtime_rs.Cache.Keyspace.{Keyspace}
use runtime_rs.Cache.Indexed
use runtime_rs.Cache.Indexed.{pair, pairs_of}
use runtime_rs.Cache.Indexed.Records.{IsField}
use runtime_rs.Cache.Indexed.Filing.{sets}
use runtime_rs.Cache.Indexed.Membership.{
  IsFair, IsRecorded, file-IsRecorded, unfile_exact, refile_exact,
}
use runtime_rs.Cache.Indexed.Equals.{unfile_misses}

abbrev base : Keyspace
base = record { base = codes "cache:" }

abbrev iterate : List Str → List Str
iterate members = members

iterate-IsFair : IsFair iterate
iterate-IsFair y set = refl

nothing-IsRecorded : IsRecorded base []
unfolding members_of Assoc.get
nothing-IsRecorded id f v hf there = absurd (ground (arith, there))

abbrev id : Str
id = codes "u1"

abbrev color : Str
color = codes "color"

color-IsField : IsField base color
color-IsField = (ground arith, ground arith)

abbrev red : Map Str
red = (color, codes "red") ∷ []

abbrev blue : Map Str
blue = (color, codes "blue") ∷ []

-- The user is filed under red.
abbrev filed : MemorySets
filed = (Indexed.file base (sets base iterate) id red []).1

filed-IsRecorded : IsRecorded base filed
filed-IsRecorded =
    file-IsRecorded base iterate iterate-IsFair [] nothing-IsRecorded id red (color-IsField, tt)

unfile_exact_example :
    ((Indexed.unfile base (sets base iterate) id filed).0 ≡ ok tt)
    × (has
          (Indexed.unfile base (sets base iterate) id filed).1
          (Keyspace.idx_by_field base color (codes "red"))
          id
        ≡ (has filed (Keyspace.idx_by_field base color (codes "red")) id && not (str_eq id id)))
unfile_exact_example =
    unfile_exact base iterate iterate-IsFair filed filed-IsRecorded id color (codes "red") id
      color-IsField

refile_exact_example :
    ((Indexed.refile base (sets base iterate) id blue filed).0 ≡ ok tt)
    × (has
          (Indexed.refile base (sets base iterate) id blue filed).1
          (Keyspace.idx_by_field base color (codes "red"))
          id
        ≡ (if str_eq id id
            then contains (pair color (codes "red")) (pairs_of blue)
            else has filed (Keyspace.idx_by_field base color (codes "red")) id))
refile_exact_example =
    refile_exact base iterate iterate-IsFair filed filed-IsRecorded id blue color (codes "red") id
      (color-IsField, tt) color-IsField

abbrev odd : Str
odd = codes "a=b"

unfile_misses_example :
    has
      (Indexed.unfile base
        (sets base iterate)
        id
        (Indexed.file base (sets base iterate) id ((odd, codes "1") ∷ []) []).1).1
      (Keyspace.idx_by_field base odd (codes "1"))
      id
    ≡ true
unfolding contains_char
unfile_misses_example = unfile_misses base iterate id odd (codes "1") iterate-IsFair refl
