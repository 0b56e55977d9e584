-- ===== src/Database/Arrow/Index.antt =====
-- database/src/arrow/index.rs, resume.rs: how a segment's blocks are gathered from its batches, and read
-- again. Beside a block stand the batches that it is to cover; a batch comes with the offset that it ends
-- at. A file is the list of its batches, from the offset `at` on: their bytes and decoding are libraries'. `indexed`,
-- the end of what was indexed before, is an argument.
pub mod Absorbs
pub mod Grows
pub mod Reads
pub mod Extends
use Prim.Native.Nat.{zero, suc}
use runtime_rs.Base.{
  ℕ, ◌+◌, ◌==◌, ltb, leb, if◌then◌else◌, List, [], ◌∷◌, ◌++◌, Option, none, some, length,
}
use runtime_rs.Database.Arrow.Block as Index
use runtime_rs.Database.Arrow.Block.{Block}
use runtime_rs.Database.Arrow.Search.{Times}

abbrev pub block_rows : ℕ
block_rows = 8192

abbrev pub Held : Type 0
Held = Block × List Times

abbrev pub absorb_time : Option ℕ → Block → Block
absorb_time none block = block
absorb_time (some t) block = record block {
  valid = block.valid + 1;
  min = if ltb t block.min then t else block.min;
  max = if ltb block.max t then t else block.max;
}

abbrev pub absorb_times : Times → Block → Block
absorb_times [] block = block
absorb_times (t ∷ times) block = absorb_times times (absorb_time t block)

pub absorb : Times → ℕ → Block → Block
absorb times end block =
    absorb_times times (record block { rows = block.rows + length times; end = end })

-- From the block that is being filled, and the batches that it has.
pub grow : Block → List Times → List (Times × ℕ) → List Held
unfolding absorb
grow block held [] = if ltb 0 block.rows then (block, held) ∷ [] else []
grow block held ((times, end) ∷ batches) =
    let full = absorb times end block in
    let both = held ++ (times ∷ []) in
    let closed = grow (Index.new end (full.first_row + full.rows)) [] batches in
    let going_on = grow full both batches in
    if leb block_rows full.rows then (full, both) ∷ closed else going_on

-- The blocks with new batches: a short last block goes on filling.
pub extended : ℕ → List Held → List (Times × ℕ) → List Held
unfolding grow
extended indexed [] batches = grow (Index.new indexed 0) [] batches
extended indexed ((block, held) ∷ []) batches =
    if ltb block.rows block_rows
    then grow block held batches
    else (block, held) ∷ grow (Index.new indexed (block.first_row + block.rows)) [] batches
extended indexed (first ∷ next ∷ blocks) batches = first ∷ extended indexed (next ∷ blocks) batches

-- The batches from an offset on, where one begins there.
pub resume : ℕ → ℕ → List (Times × ℕ) → List (Times × ℕ)
resume offset at [] = []
resume offset at ((times, end) ∷ file) =
    let later = resume offset end file in if offset == at then (times, end) ∷ file else later

-- Each batch, until one ends at `stop` or past it.
pub visited : ℕ → List (Times × ℕ) → List Times
visited stop [] = []
visited stop ((times, end) ∷ batches) =
    let more = visited stop batches in if ltb end stop then times ∷ more else times ∷ []

-- The batches of a block, as `visit` gets them.
pub read : ℕ → List (Times × ℕ) → Block → List Times
unfolding resume visited
read at file block = visited block.end (resume block.offset at file)
