-- ===== src/Database/Ingest/Bounds/Limits.antt =====
-- Every step keeps the limits.
-- the number of the records in the queue.
use runtime_rs.Base.{
  ℕ, ◌≡◌, ◌≤◌, ◌<◌, refl, true, List, Option, some, none, arith, length, Bool-cases, inl, inr,
}
use runtime_rs.Database.Ingest
use runtime_rs.Database.Ingest.{
  Ingest, IngestConfig, Command, append, flush, Phase, running, failing, flushing, closing,
  returned, gone, panicked, done, failed, Outcome, records, Admission, accepted, waits, refused,
  pick, is_empty, Step, writes, flushes, closes, receives, ticks, completes, settles, drops, panics,
  Reach, here, next,
}
use runtime_rs.Database.Ingest.Bounds.{IsBounded, rephased, AreSmall, pick-AreSmall}
use runtime_rs.Database.Ingest.Bounds.Callers.{
  reserve-queued, checked-reserve, enqueue-IsBounded, ask-IsBounded,
}
use runtime_rs.Database.Ingest.Bounds.Loop.{receive-IsBounded, tick-IsBounded}

module _ {R E : Type 0} (config : IngestConfig) (valid_config : Ingest.validate config ≡ true) where
  ended-IsBounded :
      (b : List R) (o : Outcome R E) (s : Ingest R E)
      → IsBounded config valid_config s
      → IsBounded config valid_config (Ingest.ended b o s)
  unfolding Ingest.ended
  ended-IsBounded b done s h = rephased config valid_config s _ refl refl refl refl refl h
  ended-IsBounded b (failed e) s h = rephased config valid_config s _ refl refl refl refl refl h

  picked-IsBounded :
      (o : Outcome R E) (found : Option (List R × List (List R))) (i : ℕ) (s : Ingest R E)
      → pick i s.inflight ≡ found
      → IsBounded config valid_config s
      → IsBounded config valid_config (Ingest.picked o found s)
  picked-IsBounded o none i s e h = h
  picked-IsBounded o (some (b, rest)) i s e h =
      let k = pick-AreSmall config.batch_size i s.inflight b rest e h.small in
      ended-IsBounded b (Ingest.batch_outcome b o) (record s { inflight = rest })
        (record {
          configured = h.configured;
          queued = h.queued;
          deep = h.deep;
          flying = omega (arith, h.flying, k.1);
          small = k.0;
          partial = h.partial;
        })

  drained-IsBounded :
      (phase : Phase R E) (s : Ingest R E)
      → IsBounded config valid_config s
      → IsBounded config valid_config (Ingest.drained phase s)
  unfolding Ingest.drained Ingest.replied Ingest.finish
  drained-IsBounded running s h = h
  drained-IsBounded (failing e) s h = rephased config valid_config s _ refl refl refl refl refl h
  drained-IsBounded (flushing before done) s h =
      rephased config valid_config s _ refl refl refl refl refl h
  drained-IsBounded (flushing before (failed e)) s h =
      rephased config valid_config s _ refl refl refl refl refl h
  drained-IsBounded (closing done) s h = rephased config valid_config s _ refl refl refl refl refl h
  drained-IsBounded (closing (failed e)) s h =
      rephased config valid_config s _ refl refl refl refl refl h
  drained-IsBounded (returned o) s h = h
  drained-IsBounded (gone o) s h = h
  drained-IsBounded panicked s h = h

  discard-IsBounded :
      (phase : Phase R E) (s : Ingest R E)
      → IsBounded config valid_config s
      → IsBounded config valid_config (Ingest.discard phase s)
  discard-IsBounded phase s h = record {
    configured = h.configured;
    queued = omega arith;
    deep = omega (arith, h.deep);
    flying = omega arith;
    small = tt;
    partial = omega (arith, h.partial);
  }

  dropped-IsBounded :
      (phase : Phase R E) (s : Ingest R E)
      → IsBounded config valid_config s
      → IsBounded config valid_config (Ingest.dropped phase s)
  unfolding Ingest.dropped
  dropped-IsBounded (returned o) s h = discard-IsBounded (gone o) s h
  dropped-IsBounded running s h = h
  dropped-IsBounded _ s h = h

  module _ (valid : R → Option E) (size : R → Option ℕ) where
    Step-IsBounded :
        {s t : Ingest R E}
        → Step valid size s t
        → IsBounded config valid_config s
        → IsBounded config valid_config t
    unfolding Ingest.write Ingest.request_flush Ingest.close Ingest.complete Ingest.settle
        Ingest.drop_receiver Ingest.panic
    Step-IsBounded {s} (writes c r) h =
        enqueue-IsBounded config valid_config r (Ingest.checked r (valid r) (size r) s) s
          (λ a.
            reserve-queued config valid_config s
              (checked-reserve config valid_config r (valid r) (size r) s a))
          h
    Step-IsBounded {s} (flushes c) h =
        ask-IsBounded config valid_config (Ingest.reserve s) s
          (reserve-queued config valid_config s) h
    Step-IsBounded {s} closes h = rephased config valid_config s _ refl refl refl refl refl h
    Step-IsBounded {s} receives h = receive-IsBounded config valid_config s h
    Step-IsBounded {s} ticks h = tick-IsBounded config valid_config s h
    Step-IsBounded {s} (completes i o) h = picked-IsBounded o (pick i s.inflight) i s refl h
    Step-IsBounded {s} settles h = elim (Bool-cases (is_empty s.inflight)) [
      | inl idle ↦ rw idle (drained-IsBounded s.phase s h)
      | inr busy ↦ rw busy h
    ]
    Step-IsBounded {s} drops h = dropped-IsBounded s.phase s h
    Step-IsBounded {s} panics h = elim (Bool-cases (Ingest.is_over s.phase)) [
      | inl over ↦ rw over h
      | inr live ↦ rw live (discard-IsBounded panicked s h)
    ]

    pub Reach-IsBounded :
        {s : Ingest R E} → Reach valid size (Ingest.new config) s → IsBounded config valid_config s
    unfolding Ingest.new Ingest.validate
    Reach-IsBounded here = record {
      configured = refl;
      queued = omega arith;
      deep = refl;
      flying = omega arith;
      small = tt;
      partial = ground arith;
    }
    Reach-IsBounded (next q st) = Step-IsBounded st (Reach-IsBounded q)

    -- In every state that a valid configuration reaches, the queue is within its capacity, at most
    -- `max_inflight` batches are in flight, none has more than `batch_size` records, fewer than
    -- that are pending, and the depth that is reported is the number of records in the queue.
    pub within_limits :
        {s : Ingest R E}
        → Reach valid size (Ingest.new config) s
        → (length s.queue ≤ config.queue_capacity)
          × (length s.inflight ≤ config.max_inflight)
          × AreSmall config.batch_size s.inflight
          × (length s.pending < config.batch_size)
          × (s.depth ≡ length (records s.queue))
    within_limits q = let h = Reach-IsBounded q in (h.queued, h.flying, h.small, h.partial, h.deep)
