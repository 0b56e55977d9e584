-- ===== src/Database/Ingest/Accounts/Loop.antt =====
-- What the loop of the worker takes and launches keeps the accounts.
use runtime_rs.Base.{
  ◌+◌, ◌≡◌, refl, Bool-cases, inl, inr, if◌then◌else◌, leb, Bool, true, false, List, [], ◌∷◌, arith,
  ◌&&◌, not, ltb, length, subst, sym, ap, ◌∙◌,
}
use runtime_rs.Database.Ingest
use runtime_rs.Database.Ingest.{
  Ingest, Command, append, flush, Phase, running, failing, flushing, closing, returned, gone,
  panicked, Outcome, done, failed, Refusal, Admission, accepted, waits, refused, records, pick,
  flatten, is_empty, is_gone, is_running, Step, writes, flushes, closes, receives, ticks, completes,
  settles, drops, panics, Reach, here, next,
}
use runtime_rs.Database.Ingest.Counts.{count, count-append, Ahead}
use runtime_rs.Database.Ingest.Accounts.{taken, PhaseFits, IsAccounted}

module _ {R E : Type 0} (p : R → Bool) where
  launch-taken : (s : Ingest R E) → taken p (Ingest.launch s) ≡ taken p s
  unfolding Ingest.launch
  launch-taken s = omega arith

  lossless : (s : Ingest R E) → s.phase ≡ running → IsAccounted p s → count p s.lost ≡ 0
  lossless s e h = subst (λ phase. PhaseFits p phase s) e h.fits

  running_fits : (s : Ingest R E) → s.phase ≡ running → count p s.lost ≡ 0 → PhaseFits p s.phase s
  running_fits s e l = subst (λ phase. PhaseFits p phase s) (sym e) l

  launch-IsAccounted :
      (s : Ingest R E) → s.phase ≡ running → IsAccounted p s → IsAccounted p (Ingest.launch s)
  unfolding Ingest.launch
  launch-IsAccounted s e h = record {
    kept = omega (arith, h.kept);
    ahead = subst (λ n. Ahead p n s.queue) (sym (launch-taken s)) h.ahead;
    fits = running_fits (Ingest.launch s) e (lossless s e h);
    answered = h.answered;
  }

  ending-IsAccounted :
      (b : Bool) (s : Ingest R E)
      → s.is_closed ≡ b
      → s.queue ≡ []
      → s.phase ≡ running
      → IsAccounted p s
      → IsAccounted p (if b then record (Ingest.launch s) { phase = closing done } else s)
  unfolding Ingest.launch
  ending-IsAccounted false s c q e h = h
  ending-IsAccounted true s c q e h = record {
    kept = omega (arith, h.kept);
    ahead = subst (λ n. Ahead p n s.queue) (sym (launch-taken s)) h.ahead;
    fits = (lossless s e h, refl, q, c);
    answered = h.answered;
  }

  command-IsAccounted :
      (queue : List (Command R E)) (s : Ingest R E)
      → s.queue ≡ queue
      → s.phase ≡ running
      → IsAccounted p s
      → IsAccounted p (Ingest.command queue s)
  unfolding Ingest.command Ingest.launch
  command-IsAccounted [] s q e h = ending-IsAccounted s.is_closed s refl q e h
  command-IsAccounted (flush before ∷ queue) s q e h =
      let a : Ahead p (taken p s) (flush before ∷ queue) = subst (Ahead p (taken p s)) q h.ahead in
      record {
        kept = omega (arith, h.kept, ap (λ q. count p (records q)) q);
        ahead = subst (λ n. Ahead p n queue) (sym (launch-taken s)) a.1;
        fits = (lossless s e h, refl, a.0 ∙ sym (launch-taken s));
        answered = h.answered;
      }
  command-IsAccounted (append r ∷ queue) s q e h =
      let a : Ahead p (taken p s + (if p r then 1 else 0)) queue =
        subst (Ahead p (taken p s)) q h.ahead in
      let t : Ingest R E = Ingest.push_pending r (record s { queue = queue }) in
      let n : taken p t ≡ taken p s + (if p r then 1 else 0) =
        omega (arith, count-append p s.pending (r ∷ [])) in
      let k : IsAccounted p t = record {
        kept = omega (arith, n, h.kept, ap (λ q. count p (records q)) q);
        ahead = subst (λ n. Ahead p n queue) (sym n) a;
        fits = running_fits t e (lossless s e h);
        answered = h.answered;
      } in
      elim (Bool-cases (leb s.config.batch_size (length t.pending))) [
        | inl full ↦ rw full (launch-IsAccounted t e k)
        | inr room ↦ rw room k
      ]

  has_room-running :
      (phase : Phase R E) (b : Bool) → (is_running phase && b) ≡ true → phase ≡ running
  has_room-running running b e = refl
  has_room-running (failing _) b e = cc
  has_room-running (flushing _ _) b e = cc
  has_room-running (closing _) b e = cc
  has_room-running (returned _) b e = cc
  has_room-running (gone _) b e = cc
  has_room-running panicked b e = cc

  pub receive-IsAccounted : (s : Ingest R E) → IsAccounted p s → IsAccounted p (Ingest.receive s)
  unfolding Ingest.receive Ingest.has_room
  receive-IsAccounted s h = elim (Bool-cases (Ingest.has_room s)) [
    | inl room ↦ rw room (command-IsAccounted s.queue s refl (has_room-running s.phase _ room) h)
    | inr busy ↦ rw busy h
  ]

  pub tick-IsAccounted : (s : Ingest R E) → IsAccounted p s → IsAccounted p (Ingest.tick s)
  unfolding Ingest.tick Ingest.has_room
  tick-IsAccounted s h = elim (Bool-cases (Ingest.has_room s && not (is_empty s.pending))) [
    | inl room ↦ rw room (launch-IsAccounted s (launching s room) h)
    | inr busy ↦ rw busy h
  ]
    where
      launching :
          (s : Ingest R E)
          → (Ingest.has_room s && not (is_empty s.pending)) ≡ true
          → s.phase ≡ running
      launching s e =
          has_room-running s.phase (ltb (length s.inflight) s.config.max_inflight) (ground arith)
