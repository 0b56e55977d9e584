-- ===== src/Database/Ingest/Bounds/Callers.antt =====
-- What the callers of a writer do keeps the limits.
-- the number of the records in the queue.
use runtime_rs.Base.{
  ℕ, ◌≡◌, ◌<◌, refl, true, [], ◌∷◌, Option, some, none, arith, length, length-append, ap,
}
use runtime_rs.Database.Ingest
use runtime_rs.Database.Ingest.{
  Ingest, IngestConfig, Command, append, flush, Phase, running, failing, flushing, closing,
  returned, gone, panicked, done, failed, Outcome, records, Admission, accepted, waits, refused,
  pick, is_empty, Step, writes, flushes, closes, receives, ticks, completes, settles, drops, panics,
  Reach, here, next,
}
use runtime_rs.Database.Ingest.Bounds.{IsBounded, length-records}

module _ {R E : Type 0} (config : IngestConfig) (valid_config : Ingest.validate config ≡ true) where
  -- A place is given only where the queue is shorter than its capacity.
  pub reserve-queued :
      (s : Ingest R E) → Ingest.reserve s ≡ accepted → length s.queue < s.config.queue_capacity
  unfolding Ingest.reserve
  reserve-queued s e = ground arith

  pub checked-reserve :
      (r : R) (valid : Option E) (size : Option ℕ) (s : Ingest R E)
      → Ingest.checked r valid size s ≡ accepted
      → Ingest.reserve s ≡ accepted
  checked-reserve r (some e) size s a = cc
  checked-reserve r none none s a = cc
  checked-reserve r none (some bytes) s a = ground arith

  pub enqueue-IsBounded :
      (r : R) (a : Admission R E) (s : Ingest R E)
      → (a ≡ accepted → length s.queue < s.config.queue_capacity)
      → IsBounded config valid_config s
      → IsBounded config valid_config (Ingest.enqueue r a s)
  enqueue-IsBounded r accepted s room h = record {
    configured = h.configured;
    queued = omega (
      arith,
      room refl,
      ap (λ (c : IngestConfig). c.queue_capacity) h.configured,
      length-append s.queue (append r ∷ []),
    );
    deep = omega (arith, h.deep, length-records s.queue (append r ∷ []));
    flying = h.flying;
    small = h.small;
    partial = h.partial;
  }
  enqueue-IsBounded r waits s room h = h
  enqueue-IsBounded r (refused why) s room h = h

  pub ask-IsBounded :
      (a : Admission R E) (s : Ingest R E)
      → (a ≡ accepted → length s.queue < s.config.queue_capacity)
      → IsBounded config valid_config s
      → IsBounded config valid_config (Ingest.ask a s)
  ask-IsBounded accepted s room h = record {
    configured = h.configured;
    queued = omega (
      arith,
      room refl,
      ap (λ (c : IngestConfig). c.queue_capacity) h.configured,
      length-append s.queue (flush s.admitted ∷ []),
    );
    deep = omega (arith, h.deep, length-records s.queue (flush s.admitted ∷ []));
    flying = h.flying;
    small = h.small;
    partial = h.partial;
  }
  ask-IsBounded waits s room h = h
  ask-IsBounded (refused why) s room h = h
