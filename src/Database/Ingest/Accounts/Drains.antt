-- ===== src/Database/Ingest/Accounts/Drains.antt =====
-- The end of a drain, and of the worker, keep the accounts.
use runtime_rs.Base.{
  ◌+◌, ◌≡◌, refl, Bool-cases, inl, inr, Bool, true, List, [], ◌∷◌, ◌++◌, arith, ap,
}
use runtime_rs.Database.Ingest
use runtime_rs.Database.Ingest.{
  Ingest, Command, append, flush, Phase, running, failing, flushing, closing, returned, gone,
  panicked, Outcome, done, failed, Refusal, Admission, accepted, waits, refused, records, pick,
  flatten, is_empty, is_gone, is_running, Step, writes, flushes, closes, receives, ticks, completes,
  settles, drops, panics, Reach, here, next,
}
use runtime_rs.Database.Ingest.Counts.{count, count-append, count_batches, count-flatten}
use runtime_rs.Database.Ingest.Accounts.{PhaseFits, IsAccounted}

module _ {R E : Type 0} (p : R → Bool) where
  module _ (s : Ingest R E) (idle : s.inflight ≡ []) (h : IsAccounted p s) where
    empty_flight : count_batches p s.inflight ≡ 0
    empty_flight = ap (count_batches p) idle

    finish-IsAccounted : (cause : E) → IsAccounted p (Ingest.finish (failed cause) s)
    unfolding Ingest.finish
    finish-IsAccounted cause = record {
      kept = h.kept;
      ahead = h.ahead;
      fits = tt;
      answered = h.answered;
    }

    drained-IsAccounted :
        (phase : Phase R E)
        → s.phase ≡ phase
        → PhaseFits p phase s
        → IsAccounted p (Ingest.drained phase s)
    unfolding Ingest.drained Ingest.replied Ingest.finish
    drained-IsAccounted running e f = h
    drained-IsAccounted (failing cause) e f = finish-IsAccounted cause
    drained-IsAccounted (flushing before done) e f = record {
      kept = h.kept;
      ahead = h.ahead;
      fits = f.0;
      answered = (omega (arith, f.0, f.1, f.2, empty_flight), h.answered);
    }
    drained-IsAccounted (flushing before (failed cause)) e f = record {
      kept = h.kept;
      ahead = h.ahead;
      fits = tt;
      answered = h.answered;
    }
    drained-IsAccounted (closing done) e f = record {
      kept = h.kept;
      ahead = h.ahead;
      fits = (
        omega (arith, h.kept, f.0, f.1, empty_flight, ap (λ q. count p (records q)) f.2),
        f.2,
        f.3,
      );
      answered = h.answered;
    }
    drained-IsAccounted (closing (failed cause)) e f = finish-IsAccounted cause
    drained-IsAccounted (returned o) e f = h
    drained-IsAccounted (gone o) e f = h
    drained-IsAccounted panicked e f = h

  pub settle-IsAccounted : (s : Ingest R E) → IsAccounted p s → IsAccounted p (Ingest.settle s)
  unfolding Ingest.settle
  settle-IsAccounted s h = elim (Bool-cases (is_empty s.inflight)) [
    | inl idle ↦
        rw idle (drained-IsAccounted s (is_empty-nil s.inflight idle) h s.phase refl h.fits)
    | inr busy ↦ rw busy h
  ]
    where
      is_empty-nil : (bs : List (List R)) → is_empty bs ≡ true → bs ≡ []
      is_empty-nil [] e = refl
      is_empty-nil (b ∷ bs) e = cc

  discard-count :
      (s : Ingest R E) (phase : Phase R E)
      → count p (Ingest.discard phase s).lost
        ≡ count p (records s.queue)
          + count p s.pending
          + count_batches p s.inflight
          + count p s.lost
  discard-count s phase = omega (
    arith,
    count-append p (records s.queue) (s.pending ++ (flatten s.inflight ++ s.lost)),
    count-append p s.pending (flatten s.inflight ++ s.lost),
    count-append p (flatten s.inflight) s.lost,
    count-flatten p s.inflight,
  )

  discard-IsAccounted :
      (phase : Phase R E) (s : Ingest R E)
      → PhaseFits p phase (Ingest.discard phase s)
      → IsAccounted p s
      → IsAccounted p (Ingest.discard phase s)
  discard-IsAccounted phase s f h = record {
    kept = omega (arith, h.kept, discard-count s phase);
    ahead = tt;
    fits = f;
    answered = h.answered;
  }

  dropped-IsAccounted :
      (phase : Phase R E) (s : Ingest R E)
      → PhaseFits p phase s
      → IsAccounted p s
      → IsAccounted p (Ingest.dropped phase s)
  unfolding Ingest.dropped
  dropped-IsAccounted (returned done) s f h = discard-IsAccounted (gone done) s (f.0, f.2) h
  dropped-IsAccounted (returned (failed cause)) s f h =
      discard-IsAccounted (gone (failed cause)) s tt h
  dropped-IsAccounted running s f h = h
  dropped-IsAccounted _ s f h = h

  pub drop-IsAccounted : (s : Ingest R E) → IsAccounted p s → IsAccounted p (Ingest.drop_receiver s)
  unfolding Ingest.drop_receiver
  drop-IsAccounted s h = dropped-IsAccounted s.phase s h.fits h

  pub panic-IsAccounted : (s : Ingest R E) → IsAccounted p s → IsAccounted p (Ingest.panic s)
  unfolding Ingest.panic
  panic-IsAccounted s h = elim (Bool-cases (Ingest.is_over s.phase)) [
    | inl over ↦ rw over h
    | inr live ↦ rw live (discard-IsAccounted panicked s tt h)
  ]
