-- ===== src/Database/Arrow/Block.antt =====
-- database/src/arrow/block.rs, bounds.rs: what is known of a run of batches, and of a closed segment.
-- Times are i64s, counted from the least.
use runtime_rs.Base.{ℕ, ◌+◌, ◌-◌, ◌^◌, ◌==◌, ltb, leb, ◌&&◌, ◌||◌, Bool}

pub record Block : Type 0 where
  pub offset : ℕ
  pub end : ℕ
  pub first_row : ℕ
  pub rows : ℕ
  pub valid : ℕ
  pub min : ℕ
  pub max : ℕ

-- `min` and `max` are `i64::MAX` and `i64::MIN`.
unfoldable pub new : ℕ → ℕ → Block
new offset first_row = record {
  offset = offset;
  end = offset;
  first_row = first_row;
  rows = 0;
  valid = 0;
  min = 2 ^ 64 - 1;
  max = 0;
}

-- Here 0 - 1 is 0, as `saturating_sub` has it.
unfoldable pub last_row : Block → ℕ
last_row block = block.first_row + (block.rows - 1)

unfoldable pub inside : Block → ℕ → ℕ → Bool
inside block start end = ltb 0 block.valid && (leb start block.min && ltb block.max end)

unfoldable pub outside : Block → ℕ → ℕ → Bool
outside block start end = (block.valid == 0) || (ltb block.max start || leb end block.min)

-- The sidecar of a closed segment.
pub record Bounds : Type 0 where
  pub min : ℕ
  pub max : ℕ
  pub rows : ℕ

unfoldable pub misses : Bounds → ℕ → ℕ → Bool
misses bounds start end = ltb bounds.max start || leb end bounds.min
