-- ===== src/Database/Ingest/Barrier.antt =====
-- What a flush and a close promise to the caller that waits for them.
use runtime_rs.Base.{ℕ, ◌+◌, ◌≡◌, ◌≤◌, Bool, true, List, [], ◌∷◌, ◌++◌, Option, arith, subst}
use runtime_rs.Database.Ingest
use runtime_rs.Database.Ingest.{
  Ingest, IngestConfig, running, gone, done, failed, Outcome, records, Step, writes, flushes,
  closes, receives, ticks, completes, settles, drops, panics, Reach, here, next,
}
use runtime_rs.Database.Ingest.Counts.{count, count_batches}
use runtime_rs.Database.Ingest.Accounts.{IsAccounted, Answered, PhaseFits}
use runtime_rs.Database.Ingest.Accounts.Callers.{
  close-IsAccounted, write-IsAccounted, flush-IsAccounted,
}
use runtime_rs.Database.Ingest.Accounts.Loop.{receive-IsAccounted, tick-IsAccounted}
use runtime_rs.Database.Ingest.Accounts.Batches.{complete-IsAccounted}
use runtime_rs.Database.Ingest.Accounts.Drains.{
  settle-IsAccounted, drop-IsAccounted, panic-IsAccounted,
}

module _ {R E : Type 0} (valid : R → Option E) (size : R → Option ℕ) where
  Step-IsAccounted :
      (p : R → Bool) {s t : Ingest R E} → Step valid size s t → IsAccounted p s → IsAccounted p t
  Step-IsAccounted p {s} (writes c r) h = write-IsAccounted p valid size r s c h
  Step-IsAccounted p {s} (flushes c) h = flush-IsAccounted p s c h
  Step-IsAccounted p {s} closes h = close-IsAccounted p s h
  Step-IsAccounted p {s} receives h = receive-IsAccounted p s h
  Step-IsAccounted p {s} ticks h = tick-IsAccounted p s h
  Step-IsAccounted p {s} (completes i o) h = complete-IsAccounted p i o s h
  Step-IsAccounted p {s} settles h = settle-IsAccounted p s h
  Step-IsAccounted p {s} drops h = drop-IsAccounted p s h
  Step-IsAccounted p {s} panics h = panic-IsAccounted p s h

  pub Reach-IsAccounted :
      (p : R → Bool) (config : IngestConfig) {s : Ingest R E}
      → Reach valid size (Ingest.new config) s
      → IsAccounted p s
  unfolding Ingest.new
  Reach-IsAccounted p config here = record {
    kept = omega arith;
    ahead = tt;
    fits = omega arith;
    answered = tt;
  }
  Reach-IsAccounted p config (next q st) = Step-IsAccounted p st (Reach-IsAccounted p config q)

  Answered-reply :
      (p : R → Bool) (n : ℕ) (earlier : List (List R × Outcome R E)) (before : List R)
      (later : List (List R × Outcome R E))
      → Answered p n (earlier ++ (before, done) ∷ later)
      → count p before ≤ n
  Answered-reply p n [] before later a = a.0
  Answered-reply p n ((b, done) ∷ earlier) before later a =
      Answered-reply p n earlier before later a.1
  Answered-reply p n ((b, failed e) ∷ earlier) before later a =
      Answered-reply p n earlier before later a

  -- Whatever the callers, the worker and the backend have done: where a flush was answered well,
  -- every record that had been admitted when it was asked for, as often as it had been, is
  -- acknowledged by the backend.
  pub flush_is_barrier :
      (config : IngestConfig) {s : Ingest R E} (earlier : List (List R × Outcome R E))
      (before : List R) (later : List (List R × Outcome R E))
      → Reach valid size (Ingest.new config) s
      → s.replies ≡ earlier ++ (before, done) ∷ later
      → (p : R → Bool) → count p before ≤ count p s.written
  flush_is_barrier config {s} earlier before later q e p =
      Answered-reply p (count p s.written) earlier before later
        (subst (Answered p (count p s.written)) e (Reach-IsAccounted p config q).answered)

  -- Once the worker has ended well, which is when `close` returns `Ok`, every record that was ever
  -- admitted is acknowledged, as often as it was admitted, and the writer is closed.
  pub close_means_written :
      (config : IngestConfig) {s : Ingest R E}
      → Reach valid size (Ingest.new config) s
      → s.phase ≡ gone done
      → (s.is_closed ≡ true) × ((p : R → Bool) → count p s.admitted ≡ count p s.written)
  close_means_written config {s} q e =
      let h = λ (p : R → Bool).
        subst (λ phase. PhaseFits p phase s) e (Reach-IsAccounted p config q).fits in
      ((h (λ _. true)).1, λ p. (h p).0)

  -- At every moment each record that was admitted is in exactly one place: acknowledged, in a batch
  -- in flight, pending, in the queue or lost; and while the worker is in its loop none is lost.
  pub nothing_vanishes :
      (config : IngestConfig) {s : Ingest R E} (p : R → Bool)
      → Reach valid size (Ingest.new config) s
      → (count p s.admitted
          ≡ count p s.written
            + count_batches p s.inflight
            + count p s.pending
            + count p (records s.queue)
            + count p s.lost)
        × (s.phase ≡ running → count p s.lost ≡ 0)
  nothing_vanishes config {s} p q =
      let h = Reach-IsAccounted p config q in
      (omega (arith, h.kept), λ e. subst (λ phase. PhaseFits p phase s) e h.fits)
