-- ===== src/Database/Arrow/Index/Grows.antt =====
-- The index of a segment stays right as the segment grows.
use runtime_rs.Base.{
  ℕ, ◌≡◌, refl, ap, sym, ◌∙◌, ◌+◌, ◌++◌, ltb, leb, List, [], ◌∷◌, Str, length, append-nil,
  append-append, arith, All, Bool-cases, inl, inr,
}
use runtime_rs.Database.Arrow.Block as Layout
use runtime_rs.Database.Arrow.Block.{Block, last_row}
use runtime_rs.Database.Arrow.Search.{Times, keys_of}
use runtime_rs.Database.Arrow.Search.Reads.{block_keys}
use runtime_rs.Database.Arrow.Seek.Pages.{rows_of}
use runtime_rs.Database.Arrow.Index
use runtime_rs.Database.Arrow.Index.{Held, absorb_time, absorb_times}
use runtime_rs.Database.Arrow.Index.Absorbs.{total, IsRight, widens, absorb-IsRight}

-- The batches of a file, without the offsets that they end at.
abbrev pub times_of : List (Times × ℕ) → List Times
times_of [] = []
times_of ((times, end) ∷ batches) = times ∷ times_of batches

module _ (name : Str) where
  block_keys-join :
      (row : ℕ) (held more : List Times)
      → block_keys name row (held ++ more)
        ≡ block_keys name row held ++ block_keys name (row + total held) more
  block_keys-join row [] more = ap (λ r. block_keys name r more) (ground arith)
  block_keys-join row (first ∷ held) more =
      let these = keys_of name row first in
      let others = block_keys name (row + length first) held in
      ap (λ ks. these ++ ks)
        (block_keys-join (row + length first) held more
          ∙ ap (λ r. others ++ block_keys name r more) (ground arith))
      ∙ sym (append-append these others (block_keys name (row + (length first + total held)) more))

  no_keys : (row : ℕ) (held : List Times) → total held ≡ 0 → block_keys name row held ≡ []
  no_keys row [] e = refl
  no_keys row ([] ∷ held) e = no_keys (row + 0) held (ground (arith, e))
  no_keys row ((t ∷ times) ∷ held) e = absurd (ground (arith, e))

  new-IsRight : (offset row : ℕ) → IsRight name (Layout.new offset row, [])
  unfolding Layout.new
  new-IsRight offset row = ((tt, refl), refl)

  new_row : (offset row : ℕ) → (Layout.new offset row).first_row ≡ row
  unfolding Layout.new
  new_row offset row = refl

  absorb_row :
      (times : Times) (end : ℕ) (b : Block) → (Index.absorb times end b).first_row ≡ b.first_row
  unfolding Index.absorb
  absorb_row times end b = (widens times (record b { rows = b.rows + length times; end = end })).3

  abbrev Grown : Block → List Times → List (Times × ℕ) → List Held → Type 0
  Grown b held batches blocks =
      All (IsRight name) blocks
      × (rows_of name blocks ≡ block_keys name b.first_row (held ++ times_of batches))

  grow_exact :
      (batches : List (Times × ℕ)) (b : Block) (held : List Times)
      → IsRight name (b, held)
      → Grown b held batches (Index.grow b held batches)
  unfolding Index.grow
  grow_exact [] b held h = elim (Bool-cases (ltb 0 b.rows)) [
    | inl some_rows ↦ rw some_rows (
      (h, tt),
      append-nil (block_keys name b.first_row held)
          ∙ ap (block_keys name b.first_row) (sym (append-nil held)),
    )
    | inr empty ↦ rw empty (
      tt,
      sym (no_keys b.first_row held (ground (arith, empty, h.1)))
          ∙ ap (block_keys name b.first_row) (sym (append-nil held)),
    )
  ]
  grow_exact ((times, end) ∷ batches) b held h =
      let full = Index.absorb times end b in
      let both = held ++ (times ∷ []) in
      let right = absorb-IsRight name times end b held h in
      let joined : both ++ times_of batches ≡ held ++ (times ∷ times_of batches) =
        append-append held (times ∷ []) (times_of batches) in
      elim (Bool-cases (leb Index.block_rows full.rows)) [
        | inl closed ↦
            let next = Layout.new end (full.first_row + full.rows) in
            let rest = grow_exact batches next [] (new-IsRight end (full.first_row + full.rows)) in
            let row : next.first_row ≡ full.first_row + total both =
              new_row end (full.first_row + full.rows) ∙ ap (λ n. full.first_row + n) right.1 in
            rw closed (
              (right, rest.0),
              ap (λ ks. block_keys name full.first_row both ++ ks)
                    (rest.1 ∙ ap (λ r. block_keys name r (times_of batches)) row)
                  ∙ (sym (block_keys-join full.first_row both (times_of batches))
                      ∙ (ap (λ r. block_keys name r (both ++ times_of batches))
                            (absorb_row times end b)
                          ∙ ap (block_keys name b.first_row) joined)),
            )
        | inr filling ↦
            let rest = grow_exact batches full both right in
            rw filling (
              rest.0,
              rest.1
                  ∙ (ap (λ r. block_keys name r (both ++ times_of batches)) (absorb_row times end b)
                      ∙ ap (block_keys name b.first_row) joined),
            )
      ]

  -- The number of the next row of a segment.
  abbrev pub next_row : List Held → ℕ
  next_row [] = 0
  next_row ((b, held) ∷ []) = b.first_row + b.rows
  next_row (first ∷ next ∷ blocks) = next_row (next ∷ blocks)

  -- When a segment has grown by some batches, extending its index leaves every block of it right, and
  -- its blocks cover the rows that they did and then those of the new batches, each with the number that
  -- it has in the segment.
  pub extended_rows :
      (indexed : ℕ) (blocks : List Held) (batches : List (Times × ℕ))
      → All (IsRight name) blocks
      → All (IsRight name) (Index.extended indexed blocks batches)
        × (rows_of name (Index.extended indexed blocks batches)
            ≡ rows_of name blocks ++ block_keys name (next_row blocks) (times_of batches))
  unfolding Index.extended
  extended_rows indexed [] batches h =
      let grown = grow_exact batches (Layout.new indexed 0) [] (new-IsRight indexed 0) in
      (grown.0, grown.1 ∙ ap (λ r. block_keys name r (times_of batches)) (new_row indexed 0))
  extended_rows indexed ((b, held) ∷ []) batches h =
      let old = block_keys name b.first_row held in
      elim (Bool-cases (ltb b.rows Index.block_rows)) [
        | inl short ↦
            let grown = grow_exact batches b held h.0 in
            rw short (
              grown.0,
              grown.1
                  ∙ (block_keys-join b.first_row held (times_of batches)
                      ∙ (ap (λ n. old ++ block_keys name (b.first_row + n) (times_of batches))
                            (sym h.0.1)
                          ∙ ap
                              (λ ks.
                                ks ++ block_keys name (b.first_row + b.rows) (times_of batches))
                              (sym (append-nil old)))),
            )
        | inr full ↦
            let next = b.first_row + b.rows in
            let grown =
              grow_exact batches (Layout.new indexed next) [] (new-IsRight indexed next) in
            rw full (
              (h.0, grown.0),
              ap (λ ks. old ++ ks)
                    (grown.1
                      ∙ ap (λ r. block_keys name r (times_of batches)) (new_row indexed next))
                  ∙ ap (λ ks. ks ++ block_keys name next (times_of batches)) (sym (append-nil old)),
            )
      ]
  extended_rows indexed (first ∷ next ∷ blocks) batches h =
      let rest = extended_rows indexed (next ∷ blocks) batches h.1 in
      (
        (h.0, rest.0),
        ap (λ ks. block_keys name first.0.first_row first.1 ++ ks) rest.1
            ∙ sym (
                append-append (block_keys name first.0.first_row first.1)
                  (rows_of name (next ∷ blocks))
                  (block_keys name (next_row (next ∷ blocks)) (times_of batches))),
      )
