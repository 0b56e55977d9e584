-- ===== src/Cache/Retry.antt =====
-- cache/src/retry.rs and cache/src/middleware.rs: retries of the repeatable Document operations.
pub mod Schedule
mod Tests
use runtime_rs.Base.{
  ℕ, zero, suc, ◌-◌, ◌*◌, ◌==◌, ◌||◌, min, leb, if◌then◌else◌, Bool, true, false, Option, none,
  some, List, [], ◌∷◌,
}
use runtime_rs.Cache.Outcome.{Outcome, Exec, ok, err, panic, CacheError, not_found}
use runtime_rs.Cache.Policy.{duration_max}
use runtime_rs.Cache.Document.{Document}

pub record RetrySchedule : Type 0 where
  pub remaining : ℕ
  pub wait : ℕ

abbrev pub is_not_found : CacheError → Bool
is_not_found not_found = true
is_not_found _ = false

-- `Duration::saturating_mul(2)`
unfoldable pub double : ℕ → ℕ
double wait = min (wait * 2) duration_max

-- The next delay or the error that ends it, and the schedule that is left.
pub after_failure : RetrySchedule → CacheError → Outcome ℕ × RetrySchedule
unfolding double
after_failure s error =
    let remaining = s.remaining - 1 in
    if is_not_found error || remaining == 0
    then (err error, record s { remaining = remaining })
    else (ok s.wait, record { remaining = remaining; wait = double s.wait })

-- `sleep` is the timer of the runtime: what the state is after the delay.
module _ {S T : Type 0} (sleep : ℕ → S → S) where
  -- The loop, with fuel; `none` means that the fuel ran out.
  pub loop : ℕ → RetrySchedule → Exec S T → S → Option (Outcome T × S)
  loop zero schedule operation s = none
  loop (suc fuel) schedule operation s = elim (operation s).0 [
    | ok value ↦ some (ok value, (operation s).1)
    | panic ↦ some (panic, (operation s).1)
    | err error ↦ elim (after_failure schedule error).0 [
      | ok delay ↦
          loop fuel (after_failure schedule error).1 operation (sleep delay (operation s).1)
      | err last ↦ some (err last, (operation s).1)
      | panic ↦ some (panic, (operation s).1)
    ]
  ]

  -- More fuel than attempts, so that `none` does not occur.
  pub retry : ℕ → ℕ → Exec S T → Exec S T
  retry attempts backoff operation s =
      let schedule : RetrySchedule = record { remaining = attempts; wait = backoff } in
      elim (loop (suc attempts) schedule operation s) [ some result ↦ result | none ↦ (panic, s) ]

module _ {S : Type 0} (sleep : ℕ → S → S) where
  pub retry_document : Document S → ℕ → ℕ → Document S
  retry_document next attempts backoff = record {
    create = next.create;
    get = λ id. retry sleep attempts backoff (next.get id);
    update = next.update;
    delete = λ id. retry sleep attempts backoff (next.delete id);
    keys = retry sleep attempts backoff next.keys;
    list = retry sleep attempts backoff next.list;
    ttl = λ id. retry sleep attempts backoff (next.ttl id);
  }

  pub with_retry : Document S → ℕ → ℕ → Document S
  with_retry document attempts backoff =
      if leb attempts 1 then document else retry_document document attempts backoff

abbrev pub Middleware : Type 0 → Type 0
Middleware S = Document S → Document S

unfoldable pub chain : {S : Type 0} → Document S → List (Middleware S) → Document S
chain document [] = document
chain document (middleware ∷ middlewares) = chain (middleware document) middlewares
