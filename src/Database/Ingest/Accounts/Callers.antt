-- ===== src/Database/Ingest/Accounts/Callers.antt =====
-- What the callers of a writer do keeps the accounts.
use runtime_rs.Base.{ℕ, ◌≡◌, refl, Bool, false, List, [], ◌∷◌, Option, arith}
use runtime_rs.Database.Ingest
use runtime_rs.Database.Ingest.{
  Ingest, Command, append, flush, Phase, running, failing, flushing, closing, returned, gone,
  panicked, Outcome, done, failed, Refusal, Admission, accepted, waits, refused, records, pick,
  flatten, is_empty, is_gone, is_running, Step, writes, flushes, closes, receives, ticks, completes,
  settles, drops, panics, Reach, here, next,
}
use runtime_rs.Database.Ingest.Counts.{count-append, records-append, Ahead-record, Ahead-flush}
use runtime_rs.Database.Ingest.Accounts.{taken, PhaseFits, IsAccounted}

module _ {R E : Type 0} (p : R → Bool) where
  close_fits :
      (phase : Phase R E) (s : Ingest R E)
      → PhaseFits p phase s
      → PhaseFits p phase (Ingest.close s)
  unfolding Ingest.close
  close_fits running s h = h
  close_fits (flushing before done) s h = h
  close_fits (closing done) s h = (h.0, h.1, h.2, refl)
  close_fits (returned done) s h = (h.0, h.1, refl)
  close_fits (gone done) s h = (h.0, refl)
  close_fits _ s h = tt

  pub close-IsAccounted : (s : Ingest R E) → IsAccounted p s → IsAccounted p (Ingest.close s)
  unfolding Ingest.close
  close-IsAccounted s h = record {
    kept = h.kept;
    ahead = h.ahead;
    fits = close_fits s.phase s h.fits;
    answered = h.answered;
  }

  abbrev with_queue : List (Command R E) → List R → ℕ → Ingest R E → Ingest R E
  with_queue queue admitted depth s = record s { queue = queue; admitted = admitted; depth = depth }

  -- A phase that has seen the queue closed admits nothing.
  queue_fits :
      (phase : Phase R E) (s : Ingest R E) (queue : List (Command R E)) (admitted : List R)
      (depth : ℕ)
      → s.is_closed ≡ false
      → PhaseFits p phase s
      → PhaseFits p phase (with_queue queue admitted depth s)
  queue_fits running s queue admitted depth c h = h
  queue_fits (flushing before done) s queue admitted depth c h = h
  queue_fits (closing done) s queue admitted depth c h = cc
  queue_fits (returned done) s queue admitted depth c h = cc
  queue_fits (gone done) s queue admitted depth c h = cc
  queue_fits _ s queue admitted depth c h = tt

  pub write-IsAccounted :
      (valid : R → Option E) (size : R → Option ℕ) (r : R) (s : Ingest R E)
      → s.is_closed ≡ false
      → IsAccounted p s
      → IsAccounted p (Ingest.write valid size r s).1
  unfolding Ingest.write
  write-IsAccounted valid size r s c h =
      elim (Ingest.checked r (valid r) (size r) s) as (λ a. IsAccounted p (Ingest.enqueue r a s)) [
        | accepted ↦ record {
          kept = omega (
            arith,
            h.kept,
            count-append p s.admitted (r ∷ []),
            records-append p s.queue (append r ∷ []),
          );
          ahead = Ahead-record p (taken p s) s.queue r h.ahead;
          fits = queue_fits s.phase s _ _ _ c h.fits;
          answered = h.answered;
        }
        | _ ↦ h
      ]

  pub flush-IsAccounted :
      (s : Ingest R E)
      → s.is_closed ≡ false
      → IsAccounted p s
      → IsAccounted p (Ingest.request_flush s).1
  unfolding Ingest.request_flush
  flush-IsAccounted s c h = elim (Ingest.reserve s) as (λ a. IsAccounted p (Ingest.ask a s)) [
    | accepted ↦ record {
      kept = omega (arith, h.kept, records-append p s.queue (flush s.admitted ∷ []));
      ahead = Ahead-flush p (taken p s) s.queue s.admitted h.ahead h.kept;
      fits = queue_fits s.phase s _ _ _ c h.fits;
      answered = h.answered;
    }
    | _ ↦ h
  ]
