-- ===== src/Database/Arrow/Index/Reads.antt =====
-- What the index says of a segment's blocks is what reading them gives.
use runtime_rs.Base.{
  ℕ, ◌≡◌, refl, ap, sym, ◌∙◌, subst, ◌++◌, ◌<◌, ◌≤◌, ◌==◌, ltb, List, [], ◌∷◌, length, arith, All,
  true, false,
}
use runtime_rs.Database.Arrow.Search.{Times}
use runtime_rs.Database.Arrow.Index
use runtime_rs.Database.Arrow.Index.{Held, absorb_times}
use runtime_rs.Database.Arrow.Index.Grows.{times_of}

abbrev pub File : Type 0
File = List (Times × ℕ)

abbrev pub last_end : ℕ → File → ℕ
last_end at [] = at
last_end at ((times, end) ∷ file) = last_end end file

-- Every batch takes some bytes.
abbrev pub Ascends : ℕ → File → Type 0
Ascends at [] = Unit
Ascends at ((times, end) ∷ file) = (at < end) × Ascends end file

-- The blocks lie one after another over the batches of the file, up to the ones that are left.
abbrev pub Tiles : ℕ → File → File → List Held → Type 0
Tiles at file rest [] = file ≡ rest
Tiles at file rest ((b, held) ∷ blocks) =
    (mine : File) × (later : File) × (file ≡ mine ++ later)
    × (times_of mine ≡ held)
    × (0 < length mine)
    × (b.offset ≡ at)
    × (b.end ≡ last_end at mine)
    × Tiles b.end later rest blocks

pub last_end-append :
    (at : ℕ) (file more : File) → last_end at (file ++ more) ≡ last_end (last_end at file) more
last_end-append at [] more = refl
last_end-append at ((times, end) ∷ file) more = last_end-append end file more

Ascends-append :
    (at : ℕ) (file more : File)
    → Ascends at (file ++ more)
    → (at ≤ last_end at file) × Ascends (last_end at file) more
Ascends-append at [] more h = (omega arith, h)
Ascends-append at ((times, end) ∷ file) more (first, h) =
    let rest = Ascends-append end file more h in (omega (arith, first, rest.0), rest.1)

pub times_of-append : (file more : File) → times_of (file ++ more) ≡ times_of file ++ times_of more
times_of-append [] more = refl
times_of-append ((times, end) ∷ file) more = ap (λ ts. times ∷ ts) (times_of-append file more)

resume-here : (at : ℕ) (file : File) → Index.resume at at file ≡ file
unfolding Index.resume
resume-here at [] = refl
resume-here at ((times, end) ∷ file) = ground arith

resume-skips :
    (offset at : ℕ) (mine later : File)
    → Ascends at (mine ++ later)
    → last_end at mine ≤ offset
    → Index.resume offset at (mine ++ later) ≡ Index.resume offset (last_end at mine) later
unfolding Index.resume
resume-skips offset at [] later h far = refl
resume-skips offset at ((times, end) ∷ mine) later (first, h) far =
    let passed = (Ascends-append end mine later h).0 in
    let other : (offset == at) ≡ false = ground (arith, passed, first, far) in
    rw other (resume-skips offset end mine later h far)

visited-mine :
    (at : ℕ) (mine later : File)
    → Ascends at (mine ++ later)
    → 0 < length mine
    → Index.visited (last_end at mine) (mine ++ later) ≡ times_of mine
unfolding Index.visited
visited-mine at [] later h some_batch = absurd (ground (arith, some_batch))
visited-mine at ((times, end) ∷ []) later h some_batch = ground arith
visited-mine at ((times, end) ∷ (next, stop) ∷ mine) later (first, h) some_batch =
    let passed = (Ascends-append stop mine later h.1).0 in
    let short : ltb end (last_end stop mine) ≡ true = ground (arith, passed, h.0) in
    rw short (ap (λ ts. times ∷ ts) (visited-mine end ((next, stop) ∷ mine) later h (ground arith)))

abbrev pub Found : ℕ → File → Held → Type 0
Found at file h = (at ≤ h.0.offset) × (Index.read at file h.0 ≡ h.1)

Found-later :
    (at : ℕ) (mine later : File) (blocks : List Held)
    → Ascends at (mine ++ later)
    → All (Found (last_end at mine) later) blocks
    → All (Found at (mine ++ later)) blocks
unfolding Index.read
Found-later at mine later [] h found = tt
Found-later at mine later ((b, held) ∷ blocks) h ((far, e), found) =
    let passed = (Ascends-append at mine later h).0 in
    (
      (
        omega (arith, passed, far),
        ap (Index.visited b.end) (resume-skips b.offset at mine later h far) ∙ e,
      ),
      Found-later at mine later blocks h found,
    )

pub Tiles-Found :
    (at : ℕ) (file rest : File) (blocks : List Held)
    → Tiles at file rest blocks
    → Ascends at file
    → All (Found at file) blocks
unfolding Index.read
Tiles-Found at file rest [] t h = tt
Tiles-Found at file rest ((b, held) ∷ blocks) (mine, later, e, same, some_batch, from, stop, t) h =
    let h' : Ascends at (mine ++ later) = subst (Ascends at) e h in
    let rest_found =
      Tiles-Found b.end later rest blocks t
        (subst (λ n. Ascends n later) (sym stop) (Ascends-append at mine later h').1) in
    subst (λ f. All (Found at f) ((b, held) ∷ blocks)) (sym e)
      (
        (
          omega (arith, from),
          ap (λ n. Index.visited b.end (Index.resume n at (mine ++ later))) from
              ∙ (ap (Index.visited b.end) (resume-here at (mine ++ later))
                  ∙ (ap (λ n. Index.visited n (mine ++ later)) stop
                      ∙ (visited-mine at mine later h' some_batch ∙ same))),
        ),
        Found-later at mine later blocks h'
            (subst (λ n. All (Found n later) blocks) stop rest_found),
      )
