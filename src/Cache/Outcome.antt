-- ===== src/Cache/Outcome.antt =====
-- cache/src/error.rs, and the monad of the asynchronous operations.
use runtime_rs.Base.{ℕ, Str}

pub data CacheError : Type 0 where
  not_found unsupported no_ttl overloaded : CacheError
  partial_delete : ℕ → CacheError → CacheError
  internal : Str → CacheError

-- What a call ends with. `panic` stands for Rust's unwinding.
pub data Outcome {ℓ} (A : Type ℓ) : Type ℓ where
  ok : A → Outcome A
  err : CacheError → Outcome A
  panic : Outcome A

-- An operation on a shared state: what it has written stays, however it ends.
abbrev pub Exec {ℓ} : Type ℓ → Type ℓ → Type ℓ
Exec S A = S → Outcome A × S

module _ {ℓ} {S A : Type ℓ} where
  abbrev pub pure : A → Exec S A
  pure a s = (ok a, s)

  abbrev pub raise : CacheError → Exec S A
  raise e s = (err e, s)

module _ {ℓ} {S A B : Type ℓ} where
  abbrev pub proceed : Outcome A → (A → Exec S B) → Exec S B
  proceed (ok a) f s = f a s
  proceed (err e) f s = (err e, s)
  proceed panic f s = (panic, s)

  infixl 5 ◌>>=◌ ◌>>◌
  abbrev pub ◌>>=◌ : Exec S A → (A → Exec S B) → Exec S B
  ◌>>=◌ m f s = proceed (m s).0 f (m s).1

  abbrev pub ◌>>◌ : Exec S A → Exec S B → Exec S B
  m >> n = m >>= λ _. n

-- `let _ = ...`: the outcome of an attempt is dropped; a panic is none.
abbrev pub ignored {ℓ} : {A : Type ℓ} → Outcome A → Outcome (Unit {ℓ})
ignored (ok a) = ok tt
ignored (err e) = ok tt
ignored panic = panic
