-- ===== src/Agents/Placement.antt =====
-- agents/src/placement.rs: services sorted by the address that they need. A service is given by what it
-- requires, and a host's router by itself.
pub mod Groups
pub mod Ordering
pub mod Ports
mod Tests
use runtime_rs.Base.{
  ℕ, ◌+◌, ltb, ◌==◌, ◌&&◌, ◌||◌, not, max, if◌then◌else◌, Bool, true, false, List, [], ◌∷◌, ◌++◌,
  Option, none, some, Str, str_eq, codes, any,
}
use runtime_rs.Base.Assoc.{Map, get, insert, remove}
use runtime_rs.Base.Decimal.{decimal}
use runtime_rs.Base.Sorting.{stable_sort, sort_onto}

pub record Requirements : Type 0 where
  pub addr : Option Str
  pub http : Bool

pub record Config (M : Type 0) : Type 0 where
  pub host : Str
  pub port : ℕ
  pub mux : Option M
  pub read_timeout : Option ℕ
  pub write_timeout : Option ℕ

-- A `mux` that is `none` is a new one.
pub record Group (S M : Type 0) : Type 0 where
  pub addr : Str
  pub listen : Str
  pub mux : Option M
  pub services : List S
  pub http : Bool
  pub owned : Bool

abbrev pub unwrap_or {ℓ} : {A : Type ℓ} → Option A → A → A
unwrap_or none a = a
unwrap_or (some b) a = b

-- The order of `String`.
pub text_less : Str → Str → Bool
text_less [] [] = false
text_less [] (_ ∷ _) = true
text_less (_ ∷ _) [] = false
text_less (a ∷ s) (b ∷ t) = ltb a b || (a == b && text_less s t)

module _ {S M : Type 0} (requires : S → Requirements) (config : Config M) where
  pub shared : Str
  shared = config.host ++ (codes ":" ++ decimal config.port)

  abbrev pub needs : S → Str
  needs s = unwrap_or (requires s).addr shared

  -- Whether a group stands on the host's router.
  abbrev pub on_host : Str → Option M → Option M
  on_host addr none = none
  on_host addr (some mux) = if str_eq addr shared then some mux else none

  abbrev pub owns : Option M → Bool
  owns none = true
  owns (some _) = false

  pub new_group : Str → Group S M
  new_group addr = record {
    addr = addr;
    listen = addr;
    mux = on_host addr config.mux;
    services = [];
    http = false;
    owned = owns (on_host addr config.mux);
  }

  abbrev pub add : S → Group S M → Group S M
  add s group = record group {
    services = group.services ++ s ∷ [];
    http = group.http || (requires s).http;
  }

  -- `by_addr` and `order`.
  abbrev pub Table : Type 0
  Table = Map (Group S M) × List Str

  abbrev pub join_at : S → Str → Option (Group S M) → Table → Table
  join_at s addr (some group) (by_addr, order) = (insert addr (add s group) by_addr, order)
  join_at s addr none (by_addr, order) =
      (insert addr (add s (new_group addr)) by_addr, order ++ addr ∷ [])

  pub join_all : List S → Table → Table
  unfolding new_group
  join_all [] table = table
  join_all (s ∷ services) table =
      join_all services (join_at s (needs s) (get (needs s) table.0) table)

abbrev pub cons_some {ℓ} : {A : Type ℓ} → Option A → List A → List A
cons_some none xs = xs
cons_some (some x) xs = x ∷ xs

-- `filter_map` with `remove`.
pub take_out : {G : Type 0} → List Str → Map G → List G
take_out [] by_addr = []
take_out (addr ∷ order) by_addr =
    cons_some (get addr by_addr) (take_out order (remove addr by_addr))

module _ {S M : Type 0} (requires : S → Requirements) (config : Config M) where
  -- `Runtime::group`
  pub group : List S → List (Group S M)
  unfolding join_all take_out text_less sort_onto
  group services =
      let (by_addr, order) = join_all requires config services ([], []) in
      take_out (stable_sort text_less order) by_addr

-- `rsplit_once`: what stands before the last of a character, and after it.
pub rsplit_once : ℕ → Str → Option (Str × Str)
rsplit_once c [] = none
rsplit_once c (a ∷ s) = elim (rsplit_once c s) [
  | some (x, y) ↦ some (a ∷ x, y)
  | none ↦ if a == c then some ([], s) else none
]

pub with_port : Str → ℕ → Str
unfolding rsplit_once
with_port addr port = elim (rsplit_once b':' addr) [
  | none ↦ addr
  | some (host, asked) ↦
      if str_eq asked (codes "0") then host ++ (codes ":" ++ decimal port) else addr
]

pub max_timeout : Option ℕ → Option ℕ → Option ℕ
max_timeout none b = b
max_timeout (some a) none = some a
max_timeout (some a) (some b) = some (max a b)
