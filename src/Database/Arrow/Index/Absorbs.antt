-- ===== src/Database/Arrow/Index/Absorbs.antt =====
-- What a block's index is after it has absorbed a batch.
use runtime_rs.Base.{
  ℕ, ◌≡◌, ◌≤◌, ◌<◌, ap, sym, ◌∙◌, ◌+◌, ◌++◌, List, [], ◌∷◌, none, some, Str, length, length-append,
  append-nil, append-append, subst, arith, All, All-append,
}
use runtime_rs.Database.Arrow.Key.{Key}
use runtime_rs.Database.Arrow.Block.{Block, last_row}
use runtime_rs.Database.Arrow.Search.{Times, keys_of}
use runtime_rs.Database.Arrow.Search.Reads.{block_keys}
use runtime_rs.Database.Arrow.Search.Blocks.{IsDescribed, InBlock}
use runtime_rs.Database.Arrow.Index
use runtime_rs.Database.Arrow.Index.{Held, absorb_time, absorb_times}

abbrev pub total : List Times → ℕ
total [] = 0
total (times ∷ batches) = length times + total batches

-- What the index has of a block is right.
abbrev pub IsRight : Str → Held → Type 0
IsRight name held =
    IsDescribed held.0 name (block_keys name held.0.first_row held.1) × (held.0.rows ≡ total held.1)

-- Absorbing keeps a block's place and widens its range.
pub widens :
    (times : Times) (b : Block)
    → ((absorb_times times b).min ≤ b.min)
      × (b.max ≤ (absorb_times times b).max)
      × ((absorb_times times b).rows ≡ b.rows)
      × ((absorb_times times b).first_row ≡ b.first_row)
widens [] b = ground arith
widens (none ∷ times) b = widens times b
widens (some t ∷ times) b = ground (arith, widens times (absorb_time (some t) b))

module _ (name : Str) where
  valid_counts :
      (times : Times) (row : ℕ) (b : Block)
      → (absorb_times times b).valid ≡ b.valid + length (keys_of name row times)
  valid_counts [] row b = ground arith
  valid_counts (none ∷ times) row b = valid_counts times (row + 1) b
  valid_counts (some t ∷ times) row b =
      ground (arith, valid_counts times (row + 1) (absorb_time (some t) b))

  -- A row among those numbered from `low` to before `high`, at a time in the block's range.
  abbrev Among : ℕ → ℕ → Block → Key → Type 0
  Among low high b k =
      (k.segment ≡ name) × (low ≤ k.row) × (k.row < high) × (b.min ≤ k.time) × (k.time ≤ b.max)

  absorbed :
      (times : Times) (low row high : ℕ) (b : Block)
      → low ≤ row
      → row + length times ≤ high
      → All (Among low high (absorb_times times b)) (keys_of name row times)
  absorbed [] low row high b l h = tt
  absorbed (none ∷ times) low row high b l h =
      absorbed times low (row + 1) high b (ground (arith, l)) (ground (arith, h))
  absorbed (some t ∷ times) low row high b l h = (
    ground (arith, l, h, widens times (absorb_time (some t) b)),
    absorbed times low (row + 1) high (absorb_time (some t) b) (ground (arith, l))
        (ground (arith, h)),
  )

  placed :
      (low high : ℕ) (b : Block) (ks : List Key)
      → b.first_row ≤ low
      → high ≤ b.first_row + b.rows
      → All (Among low high b) ks
      → All (InBlock b name) ks
  unfolding last_row
  placed low high b [] l h a = tt
  placed low high b (k ∷ ks) l h a = (ground (arith, l, h, a.0), placed low high b ks l h a.1)

  widened :
      (b c : Block) (ks : List Key)
      → c.first_row ≡ b.first_row
      → b.rows ≤ c.rows
      → c.min ≤ b.min
      → b.max ≤ c.max
      → All (InBlock b name) ks
      → All (InBlock c name) ks
  unfolding last_row
  widened b c [] f r l h a = tt
  widened b c (k ∷ ks) f r l h a = (ground (arith, f, r, l, h, a.0), widened b c ks f r l h a.1)

  block_keys-append :
      (row : ℕ) (held : List Times) (times : Times)
      → block_keys name row (held ++ (times ∷ []))
        ≡ block_keys name row held ++ keys_of name (row + total held) times
  block_keys-append row [] times =
      append-nil (keys_of name row times) ∙ ap (λ r. keys_of name r times) (ground arith)
  block_keys-append row (first ∷ held) times =
      let these = keys_of name row first in
      let others = block_keys name (row + length first) held in
      ap (λ ks. these ++ ks)
        (block_keys-append (row + length first) held times
          ∙ ap (λ r. others ++ keys_of name r times) (ground arith))
      ∙ sym (append-append these others (keys_of name (row + (length first + total held)) times))

  total-append :
      (held : List Times) (times : Times) → total (held ++ (times ∷ [])) ≡ total held + length times
  total-append [] times = ground arith
  total-append (first ∷ held) times = ground (arith, total-append held times)

  pub absorb-IsRight :
      (times : Times) (end : ℕ) (b : Block) (held : List Times)
      → IsRight name (b, held)
      → IsRight name (Index.absorb times end b, held ++ (times ∷ []))
  unfolding Index.absorb
  absorb-IsRight times end b held h =
      let started : Block = record b { rows = b.rows + length times; end = end } in
      let c = absorb_times times started in
      let wide = widens times started in
      let old = block_keys name b.first_row held in
      let fresh = keys_of name (b.first_row + total held) times in
      let keys : block_keys name c.first_row (held ++ (times ∷ [])) ≡ old ++ fresh =
        ap (λ r. block_keys name r (held ++ (times ∷ []))) wide.3
        ∙ block_keys-append b.first_row held times in
      let kept = widened b c old wide.3 (ground (arith, wide)) wide.0 wide.1 h.0.0 in
      let among =
        absorbed times (b.first_row + total held) (b.first_row + total held)
          (b.first_row + total held + length times) started (ground arith) (ground arith) in
      let new =
        placed (b.first_row + total held) (b.first_row + total held + length times) c fresh
          (ground (arith, wide)) (ground (arith, wide, h.1)) among in
      (
        (
          subst (λ ks. All (InBlock c name) ks) (sym keys)
              (All-append (InBlock c name) old fresh kept new),
          ground (
            arith,
            ap length keys,
            length-append old fresh,
            h.0.1,
            valid_counts times (b.first_row + total held) started,
          ),
        ),
        ground (arith, wide, h.1, total-append held times),
      )
