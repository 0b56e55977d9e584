-- ===== src/Database/Ingest/Bounds/Loop.antt =====
-- What the loop of the worker takes and launches keeps the limits.
-- the number of the records in the queue.
use runtime_rs.Base.{
  ℕ, ◌+◌, ◌≡◌, ◌≤◌, ◌<◌, refl, if◌then◌else◌, Bool, true, false, List, [], ◌∷◌, ◌∙◌, leb, arith,
  length, length-append, Bool-cases, inl, inr, ap,
}
use runtime_rs.Database.Ingest
use runtime_rs.Database.Ingest.{
  Ingest, IngestConfig, Command, append, flush, Phase, running, failing, flushing, closing,
  returned, gone, panicked, done, failed, Outcome, records, Admission, accepted, waits, refused,
  pick, is_empty, Step, writes, flushes, closes, receives, ticks, completes, settles, drops, panics,
  Reach, here, next,
}
use runtime_rs.Database.Ingest.Bounds.{IsBounded, rephased, AreSmall}

module _ {R E : Type 0} (config : IngestConfig) (valid_config : Ingest.validate config ≡ true) where
  -- A launch needs a free slot.
  launch-IsBounded :
      (s : Ingest R E)
      → length s.inflight < config.max_inflight
      → length s.pending ≤ config.batch_size
      → s.config ≡ config
      → length s.queue ≤ config.queue_capacity
      → s.depth ≡ length (records s.queue)
      → AreSmall config.batch_size s.inflight
      → IsBounded config valid_config (Ingest.launch s)
  unfolding Ingest.launch Ingest.validate
  launch-IsBounded s slot full c q d small = record {
    configured = c;
    queued = q;
    deep = d;
    flying = omega (arith, slot);
    small = (full, small);
    partial = ground arith;
  }

  relaunch :
      (s : Ingest R E)
      → length s.inflight < config.max_inflight
      → IsBounded config valid_config s
      → IsBounded config valid_config (Ingest.launch s)
  relaunch s slot h =
      launch-IsBounded s slot (omega (arith, h.partial)) h.configured h.queued h.deep h.small

  ending-IsBounded :
      (b : Bool) (s : Ingest R E)
      → length s.inflight < config.max_inflight
      → IsBounded config valid_config s
      → IsBounded config valid_config
          (if b then record (Ingest.launch s) { phase = closing done } else s)
  ending-IsBounded false s slot h = h
  ending-IsBounded true s slot h =
      rephased config valid_config (Ingest.launch s) _ refl refl refl refl refl (relaunch s slot h)

  command-IsBounded :
      (queue : List (Command R E)) (s : Ingest R E)
      → s.queue ≡ queue
      → length s.inflight < config.max_inflight
      → IsBounded config valid_config s
      → IsBounded config valid_config (Ingest.command queue s)
  unfolding Ingest.command
  command-IsBounded [] s q slot h = ending-IsBounded s.is_closed s slot h
  command-IsBounded (flush before ∷ queue) s q slot h =
      let l = relaunch s slot h in
      record {
        configured = l.configured;
        queued = omega (arith, l.queued, h.queued, ap length q);
        deep = l.deep ∙ ap (λ q. length (records q)) q;
        flying = l.flying;
        small = l.small;
        partial = l.partial;
      }
  command-IsBounded (append r ∷ queue) s q slot h =
      let t : Ingest R E = Ingest.push_pending r (record s { queue = queue }) in
      let grown : length t.pending ≡ length s.pending + 1 = length-append s.pending (r ∷ []) in
      let shorter : length queue ≤ config.queue_capacity = omega (arith, h.queued, ap length q) in
      let deep : t.depth ≡ length (records queue) =
        omega (arith, h.deep, ap (λ q. length (records q)) q) in
      elim (Bool-cases (leb s.config.batch_size (length t.pending))) [
        | inl full ↦ rw full (
            launch-IsBounded t slot (omega (arith, h.partial, grown)) h.configured shorter deep
              h.small)
        | inr room ↦ rw room (record {
          configured = h.configured;
          queued = shorter;
          deep = deep;
          flying = h.flying;
          small = h.small;
          partial = below (length t.pending) (rw (← h.configured) room);
        })
      ]
    where
      below : (n : ℕ) → leb config.batch_size n ≡ false → n < config.batch_size
      below n e = ground arith

  module _ (s : Ingest R E) (h : IsBounded config valid_config s) where
    has_room-slot : Ingest.has_room s ≡ true → length s.inflight < config.max_inflight
    unfolding Ingest.has_room
    has_room-slot e = omega (arith, slot, ap (λ (c : IngestConfig). c.max_inflight) h.configured)
      where
        slot : length s.inflight < s.config.max_inflight
        slot = ground arith

    pub receive-IsBounded : IsBounded config valid_config (Ingest.receive s)
    unfolding Ingest.receive
    receive-IsBounded = elim (Bool-cases (Ingest.has_room s)) [
      | inl room ↦ rw room (command-IsBounded s.queue s refl (has_room-slot room) h)
      | inr busy ↦ rw busy h
    ]

    pub tick-IsBounded : IsBounded config valid_config (Ingest.tick s)
    unfolding Ingest.tick
    tick-IsBounded = elim (Bool-cases (Ingest.has_room s)) [
      | inl room ↦ elim (Bool-cases (is_empty s.pending)) [
        | inl nothing ↦ rw (room, nothing) h
        | inr some_pending ↦ rw (room, some_pending) (relaunch s (has_room-slot room) h)
      ]
      | inr busy ↦ rw busy h
    ]
