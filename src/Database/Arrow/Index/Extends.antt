-- ===== src/Database/Arrow/Index/Extends.antt =====
-- The blocks of an index tile its segment, and stay so as it grows.
use runtime_rs.Base.{
  ℕ, ◌≡◌, refl, ap, sym, ◌∙◌, subst, ◌+◌, ◌++◌, ◌<◌, ltb, leb, List, [], ◌∷◌, Str, length,
  length-append, append-nil, append-append, arith, All, none, some, Bool-cases, inl, inr,
}
use runtime_rs.Database.Arrow.Block as Layout
use runtime_rs.Database.Arrow.Block.{Block}
use runtime_rs.Database.Arrow.Search.{Times}
use runtime_rs.Database.Arrow.Search.Reads.{block_keys}
use runtime_rs.Database.Arrow.Seek.Pages.{rows_of}
use runtime_rs.Database.Arrow.Index
use runtime_rs.Database.Arrow.Index.{Held, absorb_time, absorb_times}
use runtime_rs.Database.Arrow.Index.Absorbs.{total, IsRight}
use runtime_rs.Database.Arrow.Index.Grows.{times_of, next_row, extended_rows}
use runtime_rs.Database.Arrow.Index.Reads.{
  File, last_end, Ascends, Tiles, Found, last_end-append, times_of-append, Tiles-Found,
}

-- What is left of the file has no rows.
abbrev pub Laid : ℕ → File → List Held → Type 0
Laid at file blocks = (rest : File) × Tiles at file rest blocks × (total (times_of rest) ≡ 0)

absorb_times-keeps :
    (times : Times) (b : Block)
    → ((absorb_times times b).offset ≡ b.offset)
      × ((absorb_times times b).end ≡ b.end)
      × ((absorb_times times b).rows ≡ b.rows)
absorb_times-keeps [] b = ground arith
absorb_times-keeps (none ∷ times) b = absorb_times-keeps times b
absorb_times-keeps (some t ∷ times) b =
    ground (arith, absorb_times-keeps times (absorb_time (some t) b))

absorb_place :
    (times : Times) (end : ℕ) (b : Block)
    → ((Index.absorb times end b).offset ≡ b.offset)
      × ((Index.absorb times end b).end ≡ end)
      × ((Index.absorb times end b).rows ≡ b.rows + length times)
unfolding Index.absorb
absorb_place times end b =
    absorb_times-keeps times (record b { rows = b.rows + length times; end = end })

total-last :
    (held : List Times) (times : Times) → total (held ++ times ∷ []) ≡ total held + length times
total-last [] times = omega arith
total-last (first ∷ held) times = omega (arith, total-last held times)

some_batch : (mine : File) → 0 < total (times_of mine) → 0 < length mine
some_batch [] h = absurd (ground (arith, h))
some_batch (x ∷ mine) h = ground arith

grow-Laid :
    (batches : File) (b : Block) (held : List Times) (mine : File) (at : ℕ)
    → times_of mine ≡ held
    → b.offset ≡ at
    → b.end ≡ last_end at mine
    → b.rows ≡ total held
    → Laid at (mine ++ batches) (Index.grow b held batches)
unfolding Index.grow Layout.new
grow-Laid [] b held mine at same from stop rows = elim (Bool-cases (ltb 0 b.rows)) [
  | inl some_rows ↦
      let any_row : 0 < total (times_of mine) = ground (arith, ap total same, rows, some_rows) in
      rw some_rows ([], (mine, [], refl, same, some_batch mine any_row, from, stop, refl), refl)
  | inr empty ↦ rw empty (
    mine ++ [],
    refl,
    ap (λ f. total (times_of f)) (append-nil mine) ∙ (ap total same ∙ ground (arith, rows, empty)),
  )
]
grow-Laid ((times, end) ∷ batches) b held mine at same from stop rows =
    let full = Index.absorb times end b in
    let both = held ++ times ∷ [] in
    let ours = mine ++ (times, end) ∷ [] in
    let place = absorb_place times end b in
    let file : ours ++ batches ≡ mine ++ (times, end) ∷ batches =
      append-append mine ((times, end) ∷ []) batches in
    let same' : times_of ours ≡ both =
      times_of-append mine ((times, end) ∷ []) ∙ ap (λ ts. ts ++ times ∷ []) same in
    let from' : full.offset ≡ at = place.0 ∙ from in
    let stop' : full.end ≡ last_end at ours =
      place.1 ∙ sym (last_end-append at mine ((times, end) ∷ [])) in
    let rows' : full.rows ≡ total both = omega (arith, place.2, rows, total-last held times) in
    elim (Bool-cases (leb Index.block_rows full.rows)) [
      | inl closed ↦
          let next = Layout.new end (full.first_row + full.rows) in
          let (rest, tiles, left) = grow-Laid batches next [] [] end refl refl refl refl in
          let longer : 0 < length ours = omega (arith, length-append mine ((times, end) ∷ [])) in
          rw closed (
            rest,
            (
              ours,
              batches,
              sym file,
              same',
              longer,
              from',
              stop',
              subst (λ n. Tiles n batches rest (Index.grow next [] batches)) (sym place.1) tiles,
            ),
            left,
          )
      | inr filling ↦ rw filling (
          subst (λ f. Laid at f (Index.grow full both batches)) file
            (grow-Laid batches full both ours at same' from' stop' rows'))
    ]

extended-Laid :
    (at : ℕ) (file batches : File) (blocks : List Held)
    → Tiles at file [] blocks
    → All (λ h. h.0.rows ≡ total h.1) blocks
    → Laid at (file ++ batches) (Index.extended (last_end at file) blocks batches)
unfolding Index.extended Layout.new
extended-Laid at file batches [] none_yet rows =
    subst (λ f. Laid at (f ++ batches) (Index.extended (last_end at f) [] batches)) (sym none_yet)
      (grow-Laid batches (Layout.new at 0) [] [] at refl refl refl refl)
extended-Laid at file batches ((b, held) ∷ []) (mine, later, e, same, any, from, stop, done) rows =
    let all_mine : file ≡ mine = e ∙ (ap (λ l. mine ++ l) done ∙ append-nil mine) in
    subst (λ f. Laid at (f ++ batches) (Index.extended (last_end at f) ((b, held) ∷ []) batches))
      (sym all_mine)
      (elim (Bool-cases (ltb b.rows Index.block_rows)) [
        | inl short ↦ rw short (grow-Laid batches b held mine at same from stop rows.0)
        | inr full ↦
            let end = last_end at mine in
            let next = Layout.new end (b.first_row + b.rows) in
            let (rest, tiles, left) = grow-Laid batches next [] [] end refl refl refl refl in
            rw full (
              rest,
              (
                mine,
                batches,
                refl,
                same,
                any,
                from,
                stop,
                subst (λ n. Tiles n batches rest (Index.grow next [] batches)) (sym stop) tiles,
              ),
              left,
            )
      ])
extended-Laid at file batches ((b, held) ∷ second ∷ blocks)
      (mine, later, e, same, any, from, stop, tiles) rows =
    let (rest, more, left) = extended-Laid b.end later batches (second ∷ blocks) tiles rows.1 in
    let ends : last_end b.end later ≡ last_end at file =
      ap (λ n. last_end n later) stop
      ∙ (sym (last_end-append at mine later) ∙ ap (last_end at) (sym e)) in
    (
      rest,
      (
        mine,
        later ++ batches,
        ap (λ f. f ++ batches) e ∙ append-append mine later batches,
        same,
        any,
        from,
        stop,
        subst
            (λ n. Tiles b.end (later ++ batches) rest (Index.extended n (second ∷ blocks) batches))
            ends more,
      ),
      left,
    )

All-rows :
    (name : Str) (blocks : List Held)
    → All (IsRight name) blocks
    → All (λ h. h.0.rows ≡ total h.1) blocks
All-rows name [] h = tt
All-rows name (b ∷ blocks) h = (h.0.1, All-rows name blocks h.1)

All-read :
    (at : ℕ) (file : File) (blocks : List Held)
    → All (Found at file) blocks
    → All (λ h. Index.read at file h.0 ≡ h.1) blocks
All-read at file [] h = tt
All-read at file (b ∷ blocks) h = (h.0.1, All-read at file blocks h.1)

-- Let a segment's file have grown by some batches, each of which takes some bytes; let the blocks of
-- its index tile the file as it was, and each be right. When the index is extended from the end of the
-- old file, its blocks tile the grown file, all but a tail without rows; each is right again; `read`
-- finds by its offset and end exactly the batches that the block covers; and the blocks cover the rows
-- that they did and then those of the new batches, each with the number that it has in the segment.
pub extended_exact :
    (name : Str) (at : ℕ) (file batches : File) (blocks : List Held)
    → Ascends at (file ++ batches)
    → Tiles at file [] blocks
    → All (IsRight name) blocks
    → let grown = Index.extended (last_end at file) blocks batches in
      Laid at (file ++ batches) grown
      × All (IsRight name) grown
      × All (λ h. Index.read at (file ++ batches) h.0 ≡ h.1) grown
      × (rows_of name grown
          ≡ rows_of name blocks ++ block_keys name (next_row name blocks) (times_of batches))
extended_exact name at file batches blocks ascends tiles right =
    let grown = Index.extended (last_end at file) blocks batches in
    let laid = extended-Laid at file batches blocks tiles (All-rows name blocks right) in
    let rows = extended_rows name (last_end at file) blocks batches right in
    (
      laid,
      rows.0,
      All-read at (file ++ batches) grown
          (Tiles-Found at (file ++ batches) laid.0 grown laid.1 ascends),
      rows.1,
    )
