-- ===== src/Database/Ingest/Bounds.antt =====
-- The limits of a configuration.
pub mod Callers
pub mod Loop
pub mod Limits
-- the number of the records in the queue.
use runtime_rs.Base.{
  ℕ, ◌+◌, ◌≡◌, ◌≤◌, ◌<◌, refl, if◌then◌else◌, Bool, true, false, List, [], ◌∷◌, ◌++◌, zero, suc,
  sym, ◌∙◌, leb, Option, some, none, arith, subst, length, length-append, All, Bool-cases,
  Option-cases, inl, inr, ap,
}
use runtime_rs.Database.Ingest
use runtime_rs.Database.Ingest.{
  Ingest, IngestConfig, Command, append, flush, Phase, running, failing, flushing, closing,
  returned, gone, panicked, done, failed, Outcome, records, Admission, accepted, waits, refused,
  pick, is_empty, Step, writes, flushes, closes, receives, ticks, completes, settles, drops, panics,
  Reach, here, next,
}

pub length-records :
    {R E : Type 0} (q k : List (Command R E))
    → length (records (q ++ k)) ≡ length (records q) + length (records k)
length-records [] k = omega arith
length-records (append r ∷ q) k = omega (arith, length-records q k)
length-records (flush before ∷ q) k = omega (arith, length-records q k)

abbrev pub AreSmall : {R : Type 0} → ℕ → List (List R) → Type 0
AreSmall n = All (λ b. length b ≤ n)

pub pick-AreSmall :
    {R : Type 0} (n i : ℕ) (bs : List (List R)) (b : List R) (rest : List (List R))
    → pick i bs ≡ some (b, rest)
    → AreSmall n bs
    → AreSmall n rest × (suc (length rest) ≡ length bs)
unfolding pick
pick-AreSmall n i [] b rest e h = absurd (ground arith)
pick-AreSmall n zero (c ∷ bs) b rest e h =
    let same : bs ≡ rest = ground arith in
    (subst (AreSmall n) same h.1, ap (λ r. suc (length r)) (sym same))
pick-AreSmall n (suc i) (c ∷ bs) b rest e h = elim (Option-cases (pick i bs)) [
  | inl missing ↦ absurd (ground arith)
  | inr ((d, ds), found) ↦
      let k : AreSmall n ds × (suc (length ds) ≡ length bs) = pick-AreSmall n i bs d ds found h.1 in
      let same : c ∷ ds ≡ rest = ground arith in
      (
        subst (AreSmall n) same (h.0, k.0),
        subst (λ r. suc (length r) ≡ suc (length bs)) same (omega (arith, k.1)),
      )
]

module _ {R E : Type 0} (config : IngestConfig) (valid_config : Ingest.validate config ≡ true) where
  pub record IsBounded (s : Ingest R E) : Type 0 where
    pub configured : s.config ≡ config
    pub queued : length s.queue ≤ config.queue_capacity
    pub deep : s.depth ≡ length (records s.queue)
    pub flying : length s.inflight ≤ config.max_inflight
    pub small : AreSmall config.batch_size s.inflight
    pub partial : length s.pending < config.batch_size

  -- Only the phase and the like differ.
  pub rephased :
      (s t : Ingest R E)
      → t.config ≡ s.config
      → t.queue ≡ s.queue
      → t.depth ≡ s.depth
      → t.inflight ≡ s.inflight
      → t.pending ≡ s.pending
      → IsBounded s
      → IsBounded t
  rephased s t c q d f e h = record {
    configured = c ∙ h.configured;
    queued = rw q h.queued;
    deep = rw (d, q) h.deep;
    flying = rw f h.flying;
    small = rw f h.small;
    partial = rw e h.partial;
  }
