-- ===== src/Database/Ingest/Tests.antt =====
-- Database.Ingest at concrete inputs.
use runtime_rs.Base.{
  ℕ, ◌+◌, ◌≤◌, ◌<◌, ◌≡◌, refl, Bool, true, Option, some, none, [], ◌∷◌, length, arith, ◌==◌,
}
use runtime_rs.Database.Ingest
use runtime_rs.Database.Ingest.{
  Ingest, IngestConfig, running, gone, done, failed, ingestion, refused, records, Reach, here, next,
  writes, flushes, receives, completes, settles, closes, drops,
}
use runtime_rs.Database.Ingest.Counts.{count, count_batches}
use runtime_rs.Database.Ingest.Barrier.{flush_is_barrier, close_means_written, nothing_vanishes}
use runtime_rs.Database.Ingest.Bounds.{AreSmall}
use runtime_rs.Database.Ingest.Bounds.Limits.{within_limits}
use runtime_rs.Database.Ingest.Failure.{failure_is_told}
use runtime_rs.Database.Ingest.Ends.{close_ends}

program : Unit {0}
unfolding Ingest.new Ingest.write Ingest.request_flush Ingest.close Ingest.receive Ingest.command
    Ingest.tick Ingest.complete Ingest.settle Ingest.drained Ingest.drop_receiver Ingest.dropped
    Ingest.validate
program = tt

abbrev pairs : IngestConfig
pairs = record {
  batch_size = 2;
  queue_capacity = 4;
  flush_interval = 1;
  write_timeout = 1;
  max_record_bytes = 8;
  max_inflight = 1;
}

abbrev any_record : ℕ → Option ℕ
any_record _ = none

abbrev one_byte : ℕ → Option ℕ
one_byte _ = some 1

abbrev fresh : Ingest ℕ ℕ
fresh = Ingest.new pairs

abbrev written_7 : Ingest ℕ ℕ
written_7 = (Ingest.write any_record one_byte 7 fresh).1

abbrev asked : Ingest ℕ ℕ
asked = (Ingest.request_flush written_7).1

abbrev flushed : Ingest ℕ ℕ
flushed = Ingest.settle (Ingest.complete 0 done (Ingest.receive (Ingest.receive asked)))

written_7-Reach : Reach any_record one_byte fresh written_7
unfolding program
written_7-Reach = next here (writes refl 7)

flushed-Reach : Reach any_record one_byte fresh flushed
unfolding program
flushed-Reach =
    next
      (next (next (next (next written_7-Reach (flushes refl)) receives) receives)
        (completes 0 done))
      settles

flush_is_barrier_example : count (λ r. r == 7) (7 ∷ []) ≤ count (λ r. r == 7) flushed.written
unfolding program
flush_is_barrier_example =
    flush_is_barrier any_record one_byte pairs [] (7 ∷ []) [] flushed-Reach refl (λ r. r == 7)

abbrev ended_well : Ingest ℕ ℕ
ended_well =
    Ingest.drop_receiver
      (Ingest.settle (Ingest.complete 0 done (Ingest.receive (Ingest.close flushed))))

ended_well-Reach : Reach any_record one_byte fresh ended_well
unfolding program
ended_well-Reach =
    next (next (next (next (next flushed-Reach closes) receives) (completes 0 done)) settles) drops

close_means_written_example :
    (ended_well.is_closed ≡ true)
    × ((p : ℕ → Bool) → count p ended_well.admitted ≡ count p ended_well.written)
unfolding program
close_means_written_example = close_means_written any_record one_byte pairs ended_well-Reach refl

nothing_vanishes_example :
    (count (λ r. r == 7) written_7.admitted
      ≡ count (λ r. r == 7) written_7.written
        + count_batches (λ r. r == 7) written_7.inflight
        + count (λ r. r == 7) written_7.pending
        + count (λ r. r == 7) (records written_7.queue)
        + count (λ r. r == 7) written_7.lost)
    × (written_7.phase ≡ running → count (λ r. r == 7) written_7.lost ≡ 0)
nothing_vanishes_example = nothing_vanishes any_record one_byte pairs (λ r. r == 7) written_7-Reach

within_limits_example :
    (length written_7.queue ≤ 4)
    × (length written_7.inflight ≤ 1)
    × AreSmall 2 written_7.inflight
    × (length written_7.pending < 2)
    × (written_7.depth ≡ length (records written_7.queue))
unfolding program
within_limits_example = within_limits pairs refl any_record one_byte written_7-Reach

-- The backend fails with 9 while a flush waits for its batch.
abbrev ended_badly : Ingest ℕ ℕ
ended_badly =
    Ingest.drop_receiver
      (Ingest.settle (Ingest.complete 0 (failed 9) (Ingest.receive (Ingest.receive asked))))

ended_badly-Reach : Reach any_record one_byte fresh ended_badly
unfolding program
ended_badly-Reach =
    next
      (next
        (next (next (next (next written_7-Reach (flushes refl)) receives) receives)
          (completes 0 (failed 9)))
        settles)
      drops

failure_is_told_example :
    (ended_badly.phase ≡ ended_badly.phase)
    × (Ingest.request_flush ended_badly ≡ (refused (ingestion 9), ended_badly))
    × (Ingest.write any_record one_byte 5 ended_badly ≡ (refused (ingestion 9), ended_badly))
unfolding program
failure_is_told_example =
    failure_is_told any_record one_byte pairs 5 1 ended_badly-Reach refl here refl refl
      (omega arith)

close_ends_example :
    (t : Ingest ℕ ℕ) × Reach any_record one_byte (Ingest.close written_7) t
    × (t.phase ≡ gone done)
    × (t.admitted ≡ (Ingest.close written_7).admitted)
unfolding program
close_ends_example =
    close_ends any_record one_byte pairs refl (next written_7-Reach closes) refl refl
