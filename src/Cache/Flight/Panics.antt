-- ===== src/Cache/Flight/Panics.antt =====
-- What a panic of the work leaves behind.
use runtime_rs.Base.{ℕ, ◌<◌, ◌≡◌, refl, max, none, arith, inl, inr, Bool-cases, leb}
use runtime_rs.Cache.Flight
use runtime_rs.Cache.Flight.{
  Load, Phase, unborn, running, dead, finished, removed, sent, closed, Flight, update, borrow,
  joined, started, Step, call, finishes, panics, unlists, sends, releases, Reach, here, next,
}
use runtime_rs.Cache.Flight.Invariant.{IsConsistent, Reach-IsConsistent}
use runtime_rs.Cache.Flight.Progress.{Reach-trans, admit_joins}

born_of_dead : (c : ℕ) {f : Flight} (i : ℕ) → IsConsistent c f → f.phase i ≡ dead → i < f.spawned
born_of_dead c {f} i h e = elim (Bool-cases (leb f.spawned i)) [
  | inl above ↦ absurd (ground (arith, h.fresh i))
  | inr below ↦ ground arith
]

Step-dead :
    {f g : Flight} (i : ℕ)
    → Step f g
    → i < f.spawned
    → f.phase i ≡ dead
    → (g.phase i ≡ dead) × (g.key i ≡ f.key i)
unfolding Flight.admit Flight.finish Flight.panic Flight.unlist Flight.send Flight.release
Step-dead i (call k) b e = ground arith
Step-dead i (finishes j outcome at) b e = ground arith
Step-dead i (panics j at) b e = ground arith
Step-dead i (unlists j r at) b e = ground arith
Step-dead i (sends j r at) b e = ground arith
Step-dead i (releases j r at) b e = ground arith

stays_dead :
    (c : ℕ) {f g : Flight} (i : ℕ)
    → Reach (Flight.new c) f
    → f.phase i ≡ dead
    → Reach f g
    → (g.phase i ≡ dead) × (g.key i ≡ f.key i)
stays_dead c i r e here = (e, refl)
stays_dead c i r e (next q st) =
    let before = stays_dead c i r e q in
    let after =
      Step-dead i st (born_of_dead (max c 1) i (Reach-IsConsistent c (Reach-trans r q)) before.0)
        before.0 in
    ground arith

-- Once the work of a load has panicked, every later caller of its key, whatever has happened
-- meanwhile, joins that load and finds no result in it: the key is never loaded again.
pub panic_poisons_key :
    (c : ℕ) {f g : Flight} (i : ℕ)
    → Reach (Flight.new c) f
    → f.phase i ≡ dead
    → Reach f g
    → (Flight.admit (f.key i) g ≡ (joined i, g)) × (borrow (g.phase i) ≡ none)
panic_poisons_key c {f} {g} i r e q =
    let still = stays_dead c i r e q in
    (
      admit_joins c (f.key i) i (Reach-trans r q) (ground (arith, still)) still.1,
      ground (arith, still),
    )
