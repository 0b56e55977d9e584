-- ===== src/Database/Ingest.antt =====
-- database/src/ingest/: a queue of points and one worker that writes them in batches. Each function
-- is one section that runs with no other in between; `Step` takes them in any order.
pub mod Counts
pub mod Accounts
pub mod Barrier
pub mod Bounds
pub mod Failure
pub mod Ends
mod Tests
use runtime_rs.Base.{
  ℕ, ◌+◌, ◌-◌, ◌*◌, ◌^◌, ◌≡◌, ◌==◌, ◌&&◌, ◌||◌, not, ltb, leb, if◌then◌else◌, Bool, true, false,
  List, [], ◌∷◌, ◌++◌, Option, none, some, length, zero, suc,
}

-- config.rs; durations in nanoseconds.
pub record IngestConfig : Type 0 where
  pub batch_size : ℕ
  pub queue_capacity : ℕ
  pub flush_interval : ℕ
  pub write_timeout : ℕ
  pub max_record_bytes : ℕ
  pub max_inflight : ℕ

abbrev day : ℕ
day = 86400 * 10 ^ 9

pub validate : IngestConfig → Bool
validate config = not (
    not (leb 1 config.batch_size && leb config.batch_size 10000)
    || config.queue_capacity == 0
    || config.max_record_bytes == 0
    || not (leb 1 config.max_inflight && leb config.max_inflight 64)
    || config.flush_interval == 0
    || config.write_timeout == 0
    || ltb day config.flush_interval
    || ltb day config.write_timeout)

module _ (R E : Type 0) where
  pub data Outcome : Type 0 where
    done : Outcome
    failed : E → Outcome

  -- The channel of a reply is named by the records that were admitted before its `flush`.
  pub data Command : Type 0 where
    append : R → Command
    flush : List R → Command

  -- Where the worker is: in its loop; draining after a failure, for a flush or at the end, with the
  -- first failure of the drain; after `run` has returned; and once its receiver is dropped.
  pub data Phase : Type 0 where
    running : Phase
    failing : E → Phase
    flushing : List R → Outcome → Phase
    closing : Outcome → Phase
    returned : Outcome → Phase
    gone : Outcome → Phase
    panicked : Phase

  -- Why a call is refused.
  pub data Refusal : Type 0 where
    invalid : E → Refusal
    unencodable too_large closed : Refusal
    ingestion : E → Refusal

  pub data Admission : Type 0 where
    accepted waits : Admission
    refused : Refusal → Admission

  -- `admitted`, `written` and `lost` are history: what `write` has put into the queue, what the
  -- backend has acknowledged, and what was in a batch that failed or was dropped. `depth` is what
  -- the observer's queue deltas add up to.
  pub record Ingest : Type 0 where
    pub config : IngestConfig
    pub queue : List Command
    pub is_closed : Bool
    pub pending : List R
    pub inflight : List (List R)
    pub phase : Phase
    pub failure : Option E
    pub depth : ℕ
    pub replies : List (List R × Outcome)
    pub admitted : List R
    pub written : List R
    pub lost : List R

module _ {ℓ} {A : Type ℓ} where
  abbrev pub is_empty : List A → Bool
  is_empty [] = true
  is_empty (_ ∷ _) = false

  abbrev pub flatten : List (List A) → List A
  flatten [] = []
  flatten (b ∷ bs) = b ++ flatten bs

  -- The futures in flight end in any order: one of them is taken out.
  pub pick : ℕ → List (List A) → Option (List A × List (List A))
  pick i [] = none
  pick zero (b ∷ bs) = some (b, bs)
  pick (suc i) (b ∷ bs) = elim (pick i bs) [ none ↦ none | some (c, cs) ↦ some (c, b ∷ cs) ]

module _ {R E : Type 0} where
  pub new : IngestConfig → Ingest R E
  new config = record {
    config = config;
    queue = [];
    is_closed = false;
    pending = [];
    inflight = [];
    phase = running;
    failure = none;
    depth = 0;
    replies = [];
    admitted = [];
    written = [];
    lost = [];
  }

  abbrev pub is_gone : Phase R E → Bool
  is_gone (gone _) = true
  is_gone panicked = true
  is_gone _ = false

  abbrev pub is_running : Phase R E → Bool
  is_running running = true
  is_running _ = false

  -- `BatchWriter::stopped`
  pub stopped : Ingest R E → Refusal R E
  stopped s = elim s.failure [ some e ↦ ingestion e | none ↦ closed ]

  -- A place in the queue, or the reason that there is none: `Sender::reserve`.
  pub reserve : Ingest R E → Admission R E
  unfolding stopped
  reserve s =
      if is_gone s.phase
      then refused (stopped s)
      else if ltb (length s.queue) s.config.queue_capacity
      then accepted
      else waits

  -- `Entry::new` counts one in, and its lease counts one out.
  abbrev pub enqueue : R → Admission R E → Ingest R E → Ingest R E
  enqueue r accepted s = record s {
    queue = s.queue ++ append r ∷ [];
    depth = s.depth + 1;
    admitted = s.admitted ++ r ∷ [];
  }
  enqueue r _ s = s

  abbrev pub checked : R → Option E → Option ℕ → Ingest R E → Admission R E
  checked r (some e) size s = refused (invalid e)
  checked r none none s = refused unencodable
  checked r none (some bytes) s =
      if ltb s.config.max_record_bytes bytes then refused too_large else reserve s

  -- `Resource::validate` and the length of a record's JSON are parameters.
  pub write : (R → Option E) → (R → Option ℕ) → R → Ingest R E → Admission R E × Ingest R E
  unfolding reserve
  write valid size r s =
      let admission = checked r (valid r) (size r) s in (admission, enqueue r admission s)

  abbrev pub ask : Admission R E → Ingest R E → Ingest R E
  ask accepted s = record s { queue = s.queue ++ flush s.admitted ∷ [] }
  ask _ s = s

  pub request_flush : Ingest R E → Admission R E × Ingest R E
  unfolding reserve
  request_flush s = (reserve s, ask (reserve s) s)

  -- The writer is used up, and its sender dropped.
  pub close : Ingest R E → Ingest R E
  close s = record s { is_closed = true }

  -- The worker.
  pub launch : Ingest R E → Ingest R E
  launch s = record s { pending = []; inflight = s.pending ∷ s.inflight }

  pub has_room : Ingest R E → Bool
  has_room s = is_running s.phase && ltb (length s.inflight) s.config.max_inflight

  abbrev pub push_pending : R → Ingest R E → Ingest R E
  push_pending r s = record s { pending = s.pending ++ r ∷ []; depth = s.depth - 1 }

  pub appended : Ingest R E → Ingest R E
  unfolding launch
  appended s = if leb s.config.batch_size (length s.pending) then launch s else s

  -- One `recv`: a queue that is empty and closed gives `None`.
  pub command : List (Command R E) → Ingest R E → Ingest R E
  unfolding launch appended
  command [] s = if s.is_closed then record (launch s) { phase = closing done } else s
  command (append r ∷ queue) s = appended (push_pending r (record s { queue = queue }))
  command (flush before ∷ queue) s = record (launch s) {
    queue = queue;
    phase = flushing before done;
  }

  pub receive : Ingest R E → Ingest R E
  unfolding command has_room
  receive s = if has_room s then command s.queue s else s

  pub tick : Ingest R E → Ingest R E
  unfolding launch has_room
  tick s = if has_room s && not (is_empty s.pending) then launch s else s

  -- batch.rs: an empty batch is not sent. A timeout is a failure like another.
  pub batch_outcome : List R → Outcome R E → Outcome R E
  batch_outcome [] o = done
  batch_outcome (_ ∷ _) o = o

  -- The first failure ends the loop; a drain goes on and keeps the first.
  pub note_failure : E → Phase R E → Phase R E
  note_failure e running = failing e
  note_failure e (flushing before done) = flushing before (failed e)
  note_failure e (closing done) = closing (failed e)
  note_failure e phase = phase

  pub ended : List R → Outcome R E → Ingest R E → Ingest R E
  unfolding note_failure
  ended b done s = record s { written = b ++ s.written }
  ended b (failed e) s = record s { lost = b ++ s.lost; phase = note_failure e s.phase }

  abbrev pub picked : Outcome R E → Option (List R × List (List R)) → Ingest R E → Ingest R E
  picked o none s = s
  picked o (some (b, rest)) s = ended b (batch_outcome b o) (record s { inflight = rest })

  pub complete : ℕ → Outcome R E → Ingest R E → Ingest R E
  unfolding pick ended batch_outcome
  complete i o s = picked o (pick i s.inflight) s

  -- `start`: the failure is noted before the receiver is dropped.
  pub finish : Outcome R E → Ingest R E → Ingest R E
  finish done s = record s { phase = returned done }
  finish (failed e) s = record s { phase = returned (failed e); failure = some e }

  pub replied : List R → Outcome R E → Ingest R E → Ingest R E
  unfolding finish
  replied before done s = record s { replies = (before, done) ∷ s.replies; phase = running }
  replied before (failed e) s =
      finish (failed e) (record s { replies = (before, failed e) ∷ s.replies })

  pub drained : Phase R E → Ingest R E → Ingest R E
  unfolding finish replied
  drained (failing e) s = finish (failed e) s
  drained (flushing before o) s = replied before o s
  drained (closing o) s = finish o s
  drained _ s = s

  -- A drain is over where nothing is in flight.
  pub settle : Ingest R E → Ingest R E
  unfolding drained
  settle s = if is_empty s.inflight then drained s.phase s else s

  abbrev pub records : List (Command R E) → List R
  records [] = []
  records (append r ∷ queue) = r ∷ records queue
  records (flush _ ∷ queue) = records queue

  abbrev pub discard : Phase R E → Ingest R E → Ingest R E
  discard phase s = record s {
    phase = phase;
    queue = [];
    pending = [];
    inflight = [];
    depth = s.depth - length (records s.queue);
    lost = records s.queue ++ (s.pending ++ (flatten s.inflight ++ s.lost));
  }

  pub dropped : Phase R E → Ingest R E → Ingest R E
  dropped (returned o) s = discard (gone o) s
  dropped _ s = s

  pub drop_receiver : Ingest R E → Ingest R E
  unfolding dropped
  drop_receiver s = dropped s.phase s

  abbrev pub is_over : Phase R E → Bool
  is_over (returned _) = true
  is_over phase = is_gone phase

  -- A panic of the backend unwinds the worker: nothing notes a failure.
  pub panic : Ingest R E → Ingest R E
  panic s = if is_over s.phase then s else discard panicked s

  module _ (valid : R → Option E) (size : R → Option ℕ) where
    pub data Step (s : Ingest R E) : Ingest R E → Type 0 where
      writes : s.is_closed ≡ false → (r : R) → Step s (write valid size r s).1
      flushes : s.is_closed ≡ false → Step s (request_flush s).1
      closes : Step s (close s)
      receives : Step s (receive s)
      ticks : Step s (tick s)
      completes : (i : ℕ) (o : Outcome R E) → Step s (complete i o s)
      settles : Step s (settle s)
      drops : Step s (drop_receiver s)
      panics : Step s (panic s)

    pub data Reach (s : Ingest R E) : Ingest R E → Type 0 where
      here : Reach s s
      next : {t u : Ingest R E} → Reach s t → Step t u → Reach s u
