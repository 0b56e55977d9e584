-- ===== src/Cache/Retry/Tests.antt =====
-- Cache.Retry at concrete inputs.
use runtime_rs.Base.{ℕ, ◌+◌, ◌≡◌, ◌==◌, if◌then◌else◌, Str, [], ◌∷◌, codes, arith}
use runtime_rs.Cache.Outcome.{ok, err, overloaded, Exec}
use runtime_rs.Cache.Document.{Document}
use runtime_rs.Cache.Retry
use runtime_rs.Cache.Retry.{is_not_found}
use runtime_rs.Cache.Retry.Schedule.{tries, retry-tries}

abbrev k : Str
k = codes "k"

-- An operation that fails until its third run.
abbrev flaky : Exec ℕ ℕ
flaky n = if n == 2 then (ok 9, n) else (err overloaded, n + 1)

retry-tries_example : Retry.retry (λ _ n. n) 5 10 flaky 0 ≡ tries (λ _ n. n) flaky 4 10 0
retry-tries_example = retry-tries (λ _ n. n) flaky 5 10 0 (ground arith)

abbrev document : Document ℕ
document = record {
  create = λ _ _ n. (ok k, n);
  get = λ _ n. (if n == 2 then ok (9 ∷ []) else err overloaded, n + 1);
  update = λ _ _ _ n. (ok tt, n);
  delete = λ _ n. (ok tt, n);
  keys = λ n. (ok [], n);
  list = λ n. (ok [], n);
  ttl = λ _ n. (ok 0, n);
}
