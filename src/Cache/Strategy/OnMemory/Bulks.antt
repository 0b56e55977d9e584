-- ===== src/Cache/Strategy/OnMemory/Bulks.antt =====
-- The bulk reads of the memory driver are what the fallback makes of its single reads.
use runtime_rs.Base.{◌≡◌, refl, List, [], ◌∷◌, Str, arith}
use runtime_rs.Cache.Memory
use runtime_rs.Cache.Memory.{World}
use runtime_rs.Cache.Memory.Reads.{
  get_each, get_many-get_each, exists_each, exists_many-exists_each,
}
use runtime_rs.Cache.Batch.{one_by_one, try_get, optional}
use runtime_rs.Cache.Strategy.OnMemory.{Shared, driver, bulk, left}

attempts : (js : List Str) (u : Shared) → left (get_each js) u ≡ one_by_one (try_get driver) js u
unfolding one_by_one try_get optional
attempts [] u = refl
attempts (j ∷ js) u = ground (arith, attempts js ((Memory.get j u.0).1, u.1))

pub memory_get_many :
    (js : List Str) (u : Shared) → bulk.get_many js u ≡ one_by_one (try_get driver) js u
memory_get_many js u = ground (arith, attempts js u, get_many-get_each js u.0)

pub tests : (js : List Str) (u : Shared) → left (exists_each js) u ≡ one_by_one driver.exists js u
unfolding one_by_one
tests [] u = refl
tests (j ∷ js) u = ground (arith, tests js ((Memory.exists j u.0).1, u.1))

pub memory_exists_many :
    (js : List Str) (u : Shared) → bulk.exists_many js u ≡ one_by_one driver.exists js u
memory_exists_many js u = ground (arith, tests js u, exists_many-exists_each js u.0)
