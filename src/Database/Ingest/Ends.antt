-- ===== src/Database/Ingest/Ends.antt =====
-- A closed writer can end by itself: the steps of the worker, with a backend that acknowledges each
-- batch, lead to its end.
use runtime_rs.Base.{
  ℕ, ◌≡◌, refl, true, List, [], ◌∷◌, ◌++◌, leb, ltb, sym, ◌∙◌, Option, arith, subst, length,
  Bool-cases, inl, inr, ap,
}
use runtime_rs.Database.Ingest
use runtime_rs.Database.Ingest.{
  Ingest, IngestConfig, Command, append, flush, Phase, running, flushing, closing, returned, gone,
  done, Outcome, pick, Step, writes, flushes, closes, receives, ticks, completes, settles, drops,
  panics, Reach, here, next,
}
use runtime_rs.Database.Ingest.Bounds.Limits.{Reach-IsBounded}

slot :
    (config c : IngestConfig)
    → Ingest.validate config ≡ true
    → c ≡ config
    → ltb 0 c.max_inflight ≡ true
unfolding Ingest.validate
slot config c v e = rw e (ground arith)

module _ {R E : Type 0} (valid : R → Option E) (size : R → Option ℕ) where
  abbrev Ends : Ingest R E → Type 0
  Ends s =
      (t : Ingest R E) × Reach valid size s t × (t.phase ≡ gone done) × (t.admitted ≡ s.admitted)

  after : {s t u : Ingest R E} → Step valid size s t → Reach valid size t u → Reach valid size s u
  after st here = next here st
  after st (next p st') = next (after st p) st'

  by_step : {s t : Ingest R E} → Step valid size s t → t.admitted ≡ s.admitted → Ends t → Ends s
  by_step st same (u, p, e, a) = (u, after st p, e, a ∙ same)

  -- What a step leads to may be written in another way.
  by :
      {s t u : Ingest R E} → Step valid size s t → t ≡ u → u.admitted ≡ s.admitted → Ends u → Ends s
  by {s} st e same = by_step (subst (Step valid size s) e st) same

  abbrev land : List (List R) → List R → Ingest R E → Ingest R E
  land bs w s = record s { inflight = bs; written = w }

  complete-first :
      (b : List R) (rest : List (List R)) (s : Ingest R E)
      → s.inflight ≡ b ∷ rest
      → Ingest.complete 0 done s ≡ land rest (b ++ s.written) s
  unfolding Ingest.complete pick Ingest.ended Ingest.batch_outcome
  complete-first [] rest s e = ap (λ bs. Ingest.picked done (pick 0 bs) s) e
  complete-first (r ∷ b) rest s e = ap (λ bs. Ingest.picked done (pick 0 bs) s) e

  -- Every batch in flight is acknowledged.
  lands :
      (bs : List (List R)) (s : Ingest R E)
      → s.inflight ≡ bs
      → ((w : List R) → Ends (land [] w s))
      → Ends s
  lands [] s e k = subst Ends (λ i. land (sym e i) s.written s) (k s.written)
  lands (b ∷ bs) s e k =
      by (completes 0 done) (complete-first b bs s e) refl
        (lands bs (land bs (b ++ s.written) s) refl k)

  closing-Ends : (s : Ingest R E) → Ends (record s { phase = closing done; inflight = [] })
  unfolding Ingest.settle Ingest.drained Ingest.finish Ingest.drop_receiver Ingest.dropped
  closing-Ends s = by_step settles refl (by_step drops refl (_, here, refl, refl))

  abbrev served : List (Command R E) → Ingest R E → Ingest R E
  served queue s = record s { phase = running; inflight = []; queue = queue }

  receive-served :
      (queue : List (Command R E)) (s : Ingest R E)
      → ltb 0 s.config.max_inflight ≡ true
      → Ingest.receive (served queue s) ≡ Ingest.command queue (served queue s)
  unfolding Ingest.receive Ingest.has_room
  receive-served queue s room = ground arith

  appended-admitted : (s : Ingest R E) → (Ingest.appended s).admitted ≡ s.admitted
  unfolding Ingest.appended Ingest.launch
  appended-admitted s = ground arith

  -- A record may fill a batch.
  appended-Ends :
      (queue : List (Command R E)) (s : Ingest R E)
      → Ends (served queue s)
      → ((w : List R) → Ends (served queue (record s { pending = []; written = w })))
      → Ends (Ingest.appended (served queue s))
  unfolding Ingest.appended Ingest.launch
  appended-Ends queue s k l = elim (Bool-cases (leb s.config.batch_size (length s.pending))) [
    | inl full ↦ rw full (lands (s.pending ∷ []) _ refl l)
    | inr room ↦ rw room k
  ]

  -- The rest of the queue is taken in order.
  serves :
      (queue : List (Command R E)) (s : Ingest R E)
      → s.is_closed ≡ true
      → ltb 0 s.config.max_inflight ≡ true
      → Ends (served queue s)
  unfolding Ingest.command Ingest.launch Ingest.settle Ingest.drained Ingest.replied
  serves [] s c room = by receives (receive-served [] s room ∙ ground arith) refl (
      lands (s.pending ∷ [])
        (record s { phase = closing done; queue = []; pending = []; inflight = s.pending ∷ [] })
        refl (λ w. closing-Ends (record s { queue = []; pending = []; written = w })))
  serves (flush before ∷ queue) s c room =
      by receives (receive-served (flush before ∷ queue) s room) refl (
        lands (s.pending ∷ []) _ refl (λ w. by_step settles refl (
          serves queue
            (record s { pending = []; written = w; replies = (before, done) ∷ s.replies }) c room)))
  serves (append r ∷ queue) s c room =
      let t : Ingest R E = Ingest.push_pending r s in
      by receives (receive-served (append r ∷ queue) s room) (appended-admitted _) (
        appended-Ends queue t (serves queue t c room)
          (λ w. serves queue (record t { pending = []; written = w }) c room))

  -- From every state where a valid configuration's worker is in its loop and its writer is closed,
  -- the worker's own steps, with a backend that acknowledges each batch, lead to its good end, with
  -- nothing more admitted: `close` can return `Ok`.
  pub close_ends :
      (config : IngestConfig) {s : Ingest R E}
      → Ingest.validate config ≡ true
      → Reach valid size (Ingest.new config) s
      → s.phase ≡ running
      → s.is_closed ≡ true
      → (t : Ingest R E) × Reach valid size s t × (t.phase ≡ gone done) × (t.admitted ≡ s.admitted)
  close_ends config {s} v q e c = lands s.inflight s refl (λ w.
      subst Ends (λ i. record s { phase = sym e i; inflight = []; written = w })
        (serves s.queue (record s { written = w }) c
          (slot config s.config v (Reach-IsBounded config v valid size q).configured)))
