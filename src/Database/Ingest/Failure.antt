-- ===== src/Database/Ingest/Failure.antt =====
-- What the callers of a worker that has ended are told.
use runtime_rs.Base.{
  ℕ, ◌≡◌, ◌≤◌, refl, true, List, [], ◌∷◌, sym, ◌∙◌, Option, some, none, arith, ap,
}
use runtime_rs.Database.Ingest
use runtime_rs.Database.Ingest.{
  Ingest, IngestConfig, Command, append, flush, Phase, running, failing, flushing, closing,
  returned, gone, panicked, done, failed, Outcome, Refusal, ingestion, closed, Admission, accepted,
  waits, refused, pick, is_empty, is_gone, is_over, Step, writes, flushes, closes, receives, ticks,
  completes, settles, drops, panics, Reach, here, next,
}

module _ {R E : Type 0} where
  -- The failure that a phase leaves to its callers.
  abbrev told : Phase R E → Option E
  told (returned (failed e)) = some e
  told (gone (failed e)) = some e
  told _ = none

  abbrev IsTold : Ingest R E → Type 0
  IsTold s = s.failure ≡ told s.phase

  enqueue-IsTold :
      (r : R) (a : Admission R E) (s : Ingest R E) → IsTold s → IsTold (Ingest.enqueue r a s)
  enqueue-IsTold r accepted s h = h
  enqueue-IsTold r _ s h = h

  ask-IsTold : (a : Admission R E) (s : Ingest R E) → IsTold s → IsTold (Ingest.ask a s)
  ask-IsTold accepted s h = h
  ask-IsTold _ s h = h

  -- Where the worker does not end, the phases before and after leave no failure.
  command-failure :
      (queue : List (Command R E)) (s : Ingest R E)
      → s.phase ≡ running
      → IsTold s
      → IsTold (Ingest.command queue s)
  unfolding Ingest.command Ingest.launch Ingest.appended
  command-failure [] s e h = ground arith
  command-failure (append r ∷ queue) s e h = ground arith
  command-failure (flush before ∷ queue) s e h = ground arith

  receive-IsTold : (s : Ingest R E) → IsTold s → IsTold (Ingest.receive s)
  unfolding Ingest.receive Ingest.has_room
  receive-IsTold s h = ground (arith, command-failure s.queue s)

  tick-IsTold : (s : Ingest R E) → IsTold s → IsTold (Ingest.tick s)
  unfolding Ingest.tick Ingest.launch
  tick-IsTold s h = ground arith

  note_failure-told : (e : E) (phase : Phase R E) → told (Ingest.note_failure e phase) ≡ told phase
  unfolding Ingest.note_failure
  note_failure-told e phase = ground arith

  ended-IsTold :
      (b : List R) (o : Outcome R E) (s : Ingest R E) → IsTold s → IsTold (Ingest.ended b o s)
  unfolding Ingest.ended
  ended-IsTold b done s h = h
  ended-IsTold b (failed e) s h = h ∙ sym (note_failure-told e s.phase)

  picked-IsTold :
      (o : Outcome R E) (found : Option (List R × List (List R))) (s : Ingest R E)
      → IsTold s
      → IsTold (Ingest.picked o found s)
  picked-IsTold o none s h = h
  picked-IsTold o (some (b, rest)) s h =
      ended-IsTold b (Ingest.batch_outcome b o) (record s { inflight = rest }) h

  drained-IsTold :
      (phase : Phase R E) (s : Ingest R E)
      → s.phase ≡ phase
      → IsTold s
      → IsTold (Ingest.drained phase s)
  unfolding Ingest.drained Ingest.replied Ingest.finish
  drained-IsTold phase s e h = ground arith

  settle-IsTold : (s : Ingest R E) → IsTold s → IsTold (Ingest.settle s)
  unfolding Ingest.settle
  settle-IsTold s h = ground (arith, drained-IsTold s.phase s)

  dropped-IsTold :
      (phase : Phase R E) (s : Ingest R E)
      → s.phase ≡ phase
      → IsTold s
      → IsTold (Ingest.dropped phase s)
  unfolding Ingest.dropped
  dropped-IsTold phase s e h = ground arith

  panic-IsTold : (s : Ingest R E) → IsTold s → IsTold (Ingest.panic s)
  unfolding Ingest.panic
  panic-IsTold s h = ground arith

  -- What a caller is told once the receiver is dropped.
  abbrev pub last_word : Phase R E → Refusal R E
  last_word (gone (failed e)) = ingestion e
  last_word _ = closed

  stopped-last_word :
      (phase : Phase R E) (s : Ingest R E)
      → s.phase ≡ phase
      → is_gone phase ≡ true
      → IsTold s
      → Ingest.stopped s ≡ last_word phase
  unfolding Ingest.stopped
  stopped-last_word phase s e g h = ground arith

  reserve_refused :
      (s : Ingest R E)
      → is_gone s.phase ≡ true
      → IsTold s
      → Ingest.reserve s ≡ refused (last_word s.phase)
  unfolding Ingest.reserve
  reserve_refused s g h = ground (arith, stopped-last_word s.phase s)

  picked-phase :
      (o : Outcome R E) (found : Option (List R × List (List R))) (s : Ingest R E)
      → is_gone s.phase ≡ true
      → (Ingest.picked o found s).phase ≡ s.phase
  unfolding Ingest.ended Ingest.note_failure
  picked-phase o found s g = ground arith

  enqueue-phase :
      (r : R) (a : Admission R E) (s : Ingest R E) → (Ingest.enqueue r a s).phase ≡ s.phase
  enqueue-phase r a s = ground arith

  ask-phase : (a : Admission R E) (s : Ingest R E) → (Ingest.ask a s).phase ≡ s.phase
  ask-phase a s = ground arith

  module _ (valid : R → Option E) (size : R → Option ℕ) where
    Step-IsTold : {s t : Ingest R E} → Step valid size s t → IsTold s → IsTold t
    unfolding Ingest.write Ingest.request_flush Ingest.close Ingest.complete Ingest.drop_receiver
    Step-IsTold {s} (writes c r) h = enqueue-IsTold r (Ingest.checked r (valid r) (size r) s) s h
    Step-IsTold {s} (flushes c) h = ask-IsTold (Ingest.reserve s) s h
    Step-IsTold {s} closes h = h
    Step-IsTold {s} receives h = receive-IsTold s h
    Step-IsTold {s} ticks h = tick-IsTold s h
    Step-IsTold {s} (completes i o) h = picked-IsTold o (pick i s.inflight) s h
    Step-IsTold {s} settles h = settle-IsTold s h
    Step-IsTold {s} drops h = dropped-IsTold s.phase s refl h
    Step-IsTold {s} panics h = panic-IsTold s h

    Reach-IsTold : {r s : Ingest R E} → IsTold r → Reach valid size r s → IsTold s
    Reach-IsTold h here = h
    Reach-IsTold h (next q st) = Step-IsTold st (Reach-IsTold h q)

    Step-gone :
        {s t : Ingest R E} → Step valid size s t → is_gone s.phase ≡ true → t.phase ≡ s.phase
    unfolding Ingest.write Ingest.request_flush Ingest.close Ingest.receive Ingest.has_room
        Ingest.tick Ingest.complete Ingest.settle Ingest.drained Ingest.drop_receiver Ingest.dropped
        Ingest.panic
    Step-gone {s} (writes c r) g = enqueue-phase r (Ingest.checked r (valid r) (size r) s) s
    Step-gone {s} (flushes c) g = ask-phase (Ingest.reserve s) s
    Step-gone {s} closes g = refl
    Step-gone {s} receives g = ground arith
    Step-gone {s} ticks g = ground arith
    Step-gone {s} (completes i o) g = picked-phase o (pick i s.inflight) s g
    Step-gone {s} settles g = ground arith
    Step-gone {s} drops g = ground arith
    Step-gone {s} panics g = ground arith

    Reach-gone :
        {s t : Ingest R E} → is_gone s.phase ≡ true → Reach valid size s t → t.phase ≡ s.phase
    Reach-gone g here = refl
    Reach-gone {s} g (next {t} q st) =
        let same = Reach-gone g q in Step-gone st (ap is_gone same ∙ g) ∙ same

    -- Once the worker has dropped its receiver, and whatever follows, the phase stays, and every
    -- flush, and every write of a record that is valid and within the limit, is refused, with
    -- nothing changed: with the failure that ended the worker, or, where it ended well or by a
    -- panic, as closed.
    pub failure_is_told :
        (config : IngestConfig) (r : R) (bytes : ℕ) {s t : Ingest R E}
        → Reach valid size (Ingest.new config) s
        → is_gone s.phase ≡ true
        → Reach valid size s t
        → valid r ≡ none
        → size r ≡ some bytes
        → bytes ≤ t.config.max_record_bytes
        → (t.phase ≡ s.phase)
          × (Ingest.request_flush t ≡ (refused (last_word s.phase), t))
          × (Ingest.write valid size r t ≡ (refused (last_word s.phase), t))
    unfolding Ingest.new Ingest.request_flush Ingest.write
    failure_is_told config r bytes {s} {t} q g p v z b =
        let same = Reach-gone g p in
        let told_at : IsTold t = Reach-IsTold (Reach-IsTold refl q) p in
        let no_room : Ingest.reserve t ≡ refused (last_word s.phase) =
          reserve_refused t (ap is_gone same ∙ g) told_at
          ∙ ap (λ phase. refused (last_word phase)) same in
        (same, rw no_room refl, rw (v, z) (ground arith))
