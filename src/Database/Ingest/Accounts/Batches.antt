-- ===== src/Database/Ingest/Accounts/Batches.antt =====
-- The end of a batch in flight keeps the accounts.
use runtime_rs.Base.{ℕ, ◌+◌, ◌≡◌, refl, Bool, List, ◌++◌, Option, some, none, arith, subst}
use runtime_rs.Database.Ingest
use runtime_rs.Database.Ingest.{
  Ingest, Command, append, flush, Phase, running, failing, flushing, closing, returned, gone,
  panicked, Outcome, done, failed, Refusal, Admission, accepted, waits, refused, records, pick,
  flatten, is_empty, is_gone, is_running, Step, writes, flushes, closes, receives, ticks, completes,
  settles, drops, panics, Reach, here, next,
}
use runtime_rs.Database.Ingest.Counts.{
  count, count-append, count_batches, count_batches-pick, Ahead,
}
use runtime_rs.Database.Ingest.Accounts.{PhaseFits, IsAccounted, Answered_mono}

module _ {R E : Type 0} (p : R → Bool) where
  -- A batch in flight ends: what it was made of moves to one account or the other.
  ended_fits :
      (phase : Phase R E) (s : Ingest R E) (b : List R) (rest : List (List R))
      → count_batches p s.inflight ≡ count p b + count_batches p rest
      → IsAccounted p s
      → PhaseFits p phase s
      → PhaseFits p phase (record s { inflight = rest; written = b ++ s.written })
  ended_fits running s b rest e h f = f
  ended_fits (flushing before done) s b rest e h f =
      (f.0, f.1, omega (arith, f.2, count-append p b s.written))
  ended_fits (closing done) s b rest e h f = f
  ended_fits (returned done) s b rest e h f =
      (omega (arith, h.kept, f.0, count-append p b s.written), f.1, f.2)
  ended_fits (gone done) s b rest e h f =
      (omega (arith, h.kept, f.0, count-append p b s.written), f.1)
  ended_fits _ s b rest e h f = tt

  failed_fits :
      (phase : Phase R E) (s : Ingest R E) (cause : E) (b : List R) (rest : List (List R))
      → PhaseFits p phase s
      → PhaseFits p
          (Ingest.note_failure cause phase)
          (Ingest.ended b (failed cause) (record s { inflight = rest }))
  unfolding Ingest.ended Ingest.note_failure
  failed_fits (returned done) s cause b rest f = f
  failed_fits (gone done) s cause b rest f = f
  failed_fits running s cause b rest f = tt
  failed_fits (flushing before done) s cause b rest f = tt
  failed_fits (closing done) s cause b rest f = tt
  failed_fits _ s cause b rest f = tt

  ended-IsAccounted :
      (b : List R) (o : Outcome R E) (rest : List (List R)) (s : Ingest R E)
      → count_batches p s.inflight ≡ count p b + count_batches p rest
      → IsAccounted p s
      → IsAccounted p (Ingest.ended b o (record s { inflight = rest }))
  unfolding Ingest.ended
  ended-IsAccounted b done rest s e h = record {
    kept = omega (arith, h.kept, count-append p b s.written);
    ahead = subst (λ n. Ahead p n s.queue) (omega (arith, count-append p b s.written)) h.ahead;
    fits = ended_fits s.phase s b rest e h h.fits;
    answered =
        Answered_mono p (count p s.written) (count p (b ++ s.written)) s.replies
          (omega (arith, count-append p b s.written)) h.answered;
  }
  ended-IsAccounted b (failed cause) rest s e h = record {
    kept = omega (arith, h.kept, count-append p b s.lost);
    ahead = subst (λ n. Ahead p n s.queue) (omega (arith, count-append p b s.lost)) h.ahead;
    fits = failed_fits s.phase s cause b rest h.fits;
    answered = h.answered;
  }

  picked-IsAccounted :
      (o : Outcome R E) (found : Option (List R × List (List R))) (i : ℕ) (s : Ingest R E)
      → pick i s.inflight ≡ found
      → IsAccounted p s
      → IsAccounted p (Ingest.picked o found s)
  picked-IsAccounted o none i s e h = h
  picked-IsAccounted o (some (b, rest)) i s e h =
      ended-IsAccounted b (Ingest.batch_outcome b o) rest s
        (count_batches-pick p i s.inflight b rest e) h

  pub complete-IsAccounted :
      (i : ℕ) (o : Outcome R E) (s : Ingest R E)
      → IsAccounted p s
      → IsAccounted p (Ingest.complete i o s)
  unfolding Ingest.complete
  complete-IsAccounted i o s h = picked-IsAccounted o (pick i s.inflight) i s refl h
