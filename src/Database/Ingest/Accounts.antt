-- ===== src/Database/Ingest/Accounts.antt =====
-- What becomes of the records: where each one is, at every moment.
pub mod Callers
pub mod Loop
pub mod Batches
pub mod Drains
use runtime_rs.Base.{
  ℕ, ◌+◌, ◌≡◌, ◌≤◌, refl, Bool-cases, inl, inr, if◌then◌else◌, leb, Bool, true, false, List, [],
  ◌∷◌, ◌++◌, Option, some, none, arith, ◌&&◌, not, ltb, length, subst, sym, ap, ◌∙◌,
}
use runtime_rs.Database.Ingest
use runtime_rs.Database.Ingest.{
  Ingest, Command, append, flush, Phase, running, failing, flushing, closing, returned, gone,
  panicked, Outcome, done, failed, Refusal, Admission, accepted, waits, refused, records, pick,
  flatten, is_empty, is_gone, is_running, Step, writes, flushes, closes, receives, ticks, completes,
  settles, drops, panics, Reach, here, next,
}
use runtime_rs.Database.Ingest.Counts.{
  count, count-append, count_batches, count-flatten, count_batches-pick, Ahead, records-append,
  Ahead-record, Ahead-flush,
}

module _ {R E : Type 0} (p : R → Bool) where
  -- The records that the worker has taken out of the queue.
  abbrev pub taken : Ingest R E → ℕ
  taken s = count p s.written + count p s.lost + count_batches p s.inflight + count p s.pending

  abbrev pub PhaseFits : Phase R E → Ingest R E → Type 0
  PhaseFits running s = count p s.lost ≡ 0
  PhaseFits (failing e) s = Unit
  PhaseFits (flushing before done) s =
      (count p s.lost ≡ 0) × (count p s.pending ≡ 0) × (count p before ≡ taken s)
  PhaseFits (flushing before (failed e)) s = Unit
  PhaseFits (closing done) s =
      (count p s.lost ≡ 0) × (count p s.pending ≡ 0) × (s.queue ≡ []) × (s.is_closed ≡ true)
  PhaseFits (closing (failed e)) s = Unit
  PhaseFits (returned done) s =
      (count p s.admitted ≡ count p s.written) × (s.queue ≡ []) × (s.is_closed ≡ true)
  PhaseFits (returned (failed e)) s = Unit
  PhaseFits (gone done) s = (count p s.admitted ≡ count p s.written) × (s.is_closed ≡ true)
  PhaseFits (gone (failed e)) s = Unit
  PhaseFits panicked s = Unit

  -- Each flush that was answered well.
  abbrev pub Answered : ℕ → List (List R × Outcome R E) → Type 0
  Answered n [] = Unit
  Answered n ((before, done) ∷ replies) = (count p before ≤ n) × Answered n replies
  Answered n ((before, failed e) ∷ replies) = Answered n replies

  pub Answered_mono :
      (m n : ℕ) (l : List (List R × Outcome R E)) → m ≤ n → Answered m l → Answered n l
  Answered_mono m n [] h a = tt
  Answered_mono m n ((before, done) ∷ l) h a = (omega arith, Answered_mono m n l h a.1)
  Answered_mono m n ((before, failed e) ∷ l) h a = Answered_mono m n l h a

  pub record IsAccounted (s : Ingest R E) : Type 0 where
    pub kept : count p s.admitted ≡ taken s + count p (records s.queue)
    pub ahead : Ahead p (taken s) s.queue
    pub fits : PhaseFits s.phase s
    pub answered : Answered (count p s.written) s.replies
