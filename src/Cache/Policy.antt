-- ===== src/Cache/Policy.antt =====
-- cache/src/core/options.rs, and the lease arithmetic of cache/src/strategies/aside.rs that needs
-- no store. Durations are nanoseconds.
use runtime_rs.Base.{
  ℕ, ◌+◌, ◌-◌, ◌*◌, ◌^◌, ◌==◌, leb, if◌then◌else◌, not, Bool, Option, none, some, Str, codes,
}
use runtime_rs.Base.Assoc.{Map}
use runtime_rs.Cache.Outcome.{Outcome, ok, err, no_ttl, internal}

pub record Options : Type 0 where
  pub id : Option Str
  pub ttl : Option ℕ
  pub stale : Option ℕ
  pub indexes : Option (Map Str)
  pub permanent : Bool

-- `Duration::MAX` is 2^64 - 1 seconds and 999999999 nanoseconds.
abbrev pub duration_max : ℕ
duration_max = 2 ^ 64 * 1_000_000_000 - 1

unfoldable pub resolve_ttl : ℕ → Bool → Options → Outcome ℕ
resolve_ttl default_ttl require_ttl opts = elim opts.ttl [
  | some ttl ↦ ok ttl
  | none ↦
      if opts.permanent
      then ok 0
      else if not (default_ttl == 0)
      then ok default_ttl
      else if require_ttl
      then err no_ttl
      else ok 0
]

unfoldable pub resolve_stale : ℕ → Options → ℕ
resolve_stale default_stale opts = elim opts.stale [ some stale ↦ stale | none ↦ default_stale ]

pub record Freshness : Type 0 where
  pub fresh_for : ℕ
  pub hard_ttl : ℕ

-- `Duration::checked_add`
checked_add : ℕ → ℕ → Option ℕ
checked_add a b = if leb (a + b) duration_max then some (a + b) else none

unfoldable pub freshness : ℕ → ℕ → Outcome Freshness
unfolding checked_add
freshness ttl stale =
    if ttl == 0
    then ok (record { fresh_for = 0; hard_ttl = 0 })
    else if stale == 0
    then ok (record { fresh_for = 0; hard_ttl = ttl })
    else elim (checked_add ttl stale) [
      | none ↦ err (internal (codes "Aside TTL and stale window overflow Duration"))
      | some hard_ttl ↦ ok (record { fresh_for = ttl; hard_ttl = hard_ttl })
    ]
