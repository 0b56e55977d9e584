-- ===== src/Cache/Retry/Schedule.antt =====
-- How often a retried operation runs, and how long it waits in between.
use mathlib.Core.List.{append-nil, append_assoc}
use runtime_rs.Base.{
  ℕ, zero, suc, ◌+◌, ◌-◌, ◌*◌, ◌≤◌, ◌<◌, ◌≡◌, refl, min, leb, true, false, Bool, not, some, subst,
  List, [], ◌∷◌, arith, max, Str, Bool-cases, inl, inr, ◌++◌, ◌∙◌,
}
use runtime_rs.Cache.Outcome.{Exec, ok, err, panic, CacheError, not_found}
use runtime_rs.Cache.Policy.{duration_max}
use runtime_rs.Cache.Document.{Document}
use runtime_rs.Cache.Retry
use runtime_rs.Cache.Retry.{RetrySchedule, is_not_found}

-- The errors that an operation may get over.
abbrev pub passes : CacheError → Bool
passes not_found = false
passes _ = true

passes-is_not_found : (error : CacheError) → passes error ≡ not (is_not_found error)
passes-is_not_found error = ground arith

module _ {S T : Type 0} (sleep : ℕ → S → S) (operation : Exec S T) where
  -- The operation once and up to `n` times more, each after a wait: `wait`, then twice that, then
  -- four times, each cut off at the longest duration. The first value, panic or `NotFound` ends it.
  pub tries : ℕ → ℕ → Exec S T
  tries zero wait s = operation s
  tries (suc n) wait s = elim (operation s).0 [
    | ok value ↦ (ok value, (operation s).1)
    | panic ↦ (panic, (operation s).1)
    | err error ↦ elim (passes error) [
      | false ↦ (err error, (operation s).1)
      | true ↦ tries n (wait * 2) (sleep (min wait duration_max) (operation s).1)
    ]
  ]

  saturated : (wait : ℕ) → Retry.double (min wait duration_max) ≡ min (wait * 2) duration_max
  unfolding Retry.double
  saturated wait = omega arith

  loop-tries :
      (fuel n wait : ℕ) (s : S)
      → n < fuel
      → Retry.loop sleep fuel (record { remaining = n; wait = min wait duration_max }) operation s
        ≡ some (tries (n - 1) wait s)
  unfolding Retry.loop Retry.after_failure tries
  loop-tries zero n wait s h = elim h [ ]
  loop-tries (suc fuel) zero wait s h = ground arith
  loop-tries (suc fuel) (suc zero) wait s h = ground arith
  loop-tries (suc fuel) (suc (suc n)) wait s h = ground (
    arith,
    saturated wait,
    loop-tries fuel (suc n) (wait * 2) (sleep (min wait duration_max) (operation s).1),
  )

  -- Let the backoff be at most the longest duration. The loop always returns, with what the plain
  -- description `tries` returns: the operation once and, while it fails with an error other than
  -- `NotFound`, up to `attempts` runs in all, after waits of the backoff, twice the backoff, four
  -- times the backoff and so on, each cut off at the longest duration.
  pub retry-tries :
      (attempts backoff : ℕ) (s : S)
      → backoff ≤ duration_max
      → Retry.retry sleep attempts backoff operation s ≡ tries (attempts - 1) backoff s
  unfolding Retry.retry
  retry-tries attempts backoff s fits =
      let first : min backoff duration_max ≡ backoff = omega arith in
      let looped = loop-tries (suc attempts) attempts backoff s (omega arith) in
      rw (
        subst
            (λ w.
              Retry.loop sleep (suc attempts) (record { remaining = attempts; wait = w }) operation
                s
              ≡ some (tries (attempts - 1) backoff s))
            first looped,
        Retry.retry,
      )

module _ {S : Type 0} (sleep : ℕ → S → S) (document : Document S) (attempts backoff : ℕ) where
  abbrev wrapped : Document S
  wrapped = Retry.with_retry sleep document attempts backoff

  -- Let the backoff be at most the longest duration. Whatever the number of attempts: `create` and
  -- `update` are the document's own and run once; every other operation is tried as often as
  -- configured, and at least once.
  pub with_retry_exact :
      (id : Str) (s : S)
      → backoff ≤ duration_max
      → (wrapped.create ≡ document.create)
        × (wrapped.update ≡ document.update)
        × (wrapped.get id s ≡ tries sleep (document.get id) (attempts - 1) backoff s)
        × (wrapped.delete id s ≡ tries sleep (document.delete id) (attempts - 1) backoff s)
        × (wrapped.ttl id s ≡ tries sleep (document.ttl id) (attempts - 1) backoff s)
        × (wrapped.keys s ≡ tries sleep document.keys (attempts - 1) backoff s)
        × (wrapped.list s ≡ tries sleep document.list (attempts - 1) backoff s)
  unfolding Retry.with_retry Retry.retry_document
  with_retry_exact id s fits = elim (Bool-cases (leb attempts 1)) [
    | inl few ↦
        let once : attempts - 1 ≡ 0 = ground arith in
        rw (few, once) (unfold tries in (refl, refl, refl, refl, refl, refl, refl))
    | inr many ↦ rw many (
      refl,
      refl,
      retry-tries sleep (document.get id) attempts backoff s fits,
      retry-tries sleep (document.delete id) attempts backoff s fits,
      retry-tries sleep (document.ttl id) attempts backoff s fits,
      retry-tries sleep document.keys attempts backoff s fits,
      retry-tries sleep document.list attempts backoff s fits,
    )
  ]

-- The runs of an operation are counted beside its state.
abbrev pub counted : {S T : Type 0} → Exec S T → Exec (S × ℕ) T
counted operation (s, n) = ((operation s).0, ((operation s).1, n + 1))

abbrev pub uncounted : {S : Type 0} → (ℕ → S → S) → ℕ → S × ℕ → S × ℕ
uncounted sleep d (s, n) = (sleep d s, n)

module _ {S T : Type 0} (sleep : ℕ → S → S) (operation : Exec S T) where
  runs-tries :
      (n wait : ℕ) (s : S) (c : ℕ)
      → (c < (tries (uncounted sleep) (counted operation) n wait (s, c)).1.1)
        × ((tries (uncounted sleep) (counted operation) n wait (s, c)).1.1 ≤ c + n + 1)
  unfolding tries
  runs-tries zero wait s c = omega arith
  runs-tries (suc n) wait s c =
      ground
        (arith, runs-tries n (wait * 2) (sleep (min wait duration_max) (operation s).1) (c + 1))

  -- With such a backoff a retried operation runs at least once, and at most as often as there are
  -- attempts.
  pub runs_bounded :
      (attempts backoff : ℕ) (s : S)
      → backoff ≤ duration_max
      → (1 ≤ (Retry.retry (uncounted sleep) attempts backoff (counted operation) (s, 0)).1.1)
        × ((Retry.retry (uncounted sleep) attempts backoff (counted operation) (s, 0)).1.1
            ≤ max attempts 1)
  runs_bounded attempts backoff s fits =
      rw (retry-tries (uncounted sleep) (counted operation) attempts backoff (s, 0) fits)
        (omega (arith, runs-tries (attempts - 1) backoff s 0))

-- The waits before the retries, as a trace.
abbrev pub waits : ℕ → ℕ → List ℕ
waits zero wait = []
waits (suc n) wait = min wait duration_max ∷ waits n (wait * 2)

abbrev pub trace : ℕ → List ℕ → List ℕ
trace d t = t ++ (d ∷ [])

tries_failing :
    {T : Type 0} (error : CacheError) (n wait : ℕ) (t : List ℕ)
    → is_not_found error ≡ false
    → tries {T = T} trace (λ s. (err error, s)) n wait t ≡ (err error, t ++ waits n wait)
unfolding tries
tries_failing error zero wait t h = rw append-nil
tries_failing {T} error (suc n) wait t h =
    let goes_on : passes error ≡ true = ground (arith, h, passes-is_not_found error) in
    rw (goes_on, tries)
      (tries_failing error n (wait * 2) (t ++ min wait duration_max ∷ []) h ∙ rw append_assoc)

-- An operation that fails each time with an error other than `NotFound` ends with that error,
-- after waits of `backoff`, twice `backoff`, four times `backoff` and so on, each cut off at the
-- longest duration, one less than there are attempts.
pub backoff_doubles :
    {T : Type 0} (error : CacheError) (attempts backoff : ℕ)
    → is_not_found error ≡ false
    → backoff ≤ duration_max
    → Retry.retry {T = T} trace attempts backoff (λ s. (err error, s)) []
      ≡ (err error, waits (attempts - 1) backoff)
backoff_doubles error attempts backoff h fits =
    retry-tries trace (λ s. (err error, s)) attempts backoff [] fits
    ∙ tries_failing error (attempts - 1) backoff [] h
