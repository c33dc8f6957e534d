-- ===== src/Indexer/Range.antt =====
-- A run in which nothing fails indexes the configured range of blocks.
use relayer2_public.Base.{
  ℕ, String, zero, suc, ◌+◌, ◌≡◌, true, false, Option, some, List, [], ◌∷◌, is_some,
}
use relayer2_public.Indexer.State.{Block, block_file, Indexer, World, contents}
use relayer2_public.Indexer.Machine.{idle, Machine, Event, call_next, poll}
use relayer2_public.Indexer.Invariant.{IsValid}
use relayer2_public.Indexer.Counting.{inserted_blocks}

-- What the outside answers to the four functions that a block goes through.
pub record Lap : Type 0 where
  pub at_read : World
  pub at_insert : World
  pub at_publish : World
  pub at_increment : World

abbrev pub lap_events : Lap → List Event → List Event
lap_events l es =
    call_next l.at_read
    ∷ poll
    ∷ call_next l.at_insert
    ∷ poll
    ∷ call_next l.at_publish
    ∷ poll
    ∷ call_next l.at_increment
    ∷ poll
    ∷ es

-- The laps of a range, and the round that stops the indexer.
abbrev pub range_events : List Lap → World → List Event
range_events [] w = call_next w ∷ poll ∷ []
range_events (l ∷ ls) w = lap_events l (range_events ls w)

module _ (folder : String) (block_of : ℕ → Block) (encode : ℕ → List ℕ) where
  -- The file of each block holds that block, and no call fails.
  pub record IsCalm (w : World) : Type 0 where
    pub known : is_some w.block_number.0 ≡ true
    pub reads : (sub n : ℕ) → w.read_file (block_file folder sub n) ≡ contents (encode n)
    pub decodes :
        (n : ℕ) (old : Option Block) → w.unmarshal (encode n) old ≡ (some (block_of n), false)
    pub inserts : (n : ℕ) → w.insert_block (block_of n) ≡ false

  -- The indexer is at block `n` of a range that ends with `last`, keeps its files, and has inserted
  -- the blocks `before`.
  pub record IsAt (last n : ℕ) (before : List Block) (i : Indexer) : Type 0 where
    pub valid : IsValid i
    pub here : i.s.curr_block ≡ n
    pub bound : i.c.to_block ≡ last
    pub source : i.c.source_folder ≡ folder
    pub keeps : i.c.keep_files ≡ true
    pub once : i.c.force_reindex ≡ false
    pub opened : i.stop_closed ≡ false
    pub logged : inserted_blocks i.calls ≡ before

  abbrev HasBlock : ℕ → Indexer → Type 0
  HasBlock n i = i.s.block ≡ some (block_of n)

  pub record IsCalmLap (l : Lap) : Type 0 where
    pub read_calm : IsCalm l.at_read
    pub insert_calm : IsCalm l.at_insert
    pub publish_calm : IsCalm l.at_publish
    pub increment_calm : IsCalm l.at_increment

  -- The blocks `n`, …, `n + k - 1`, the last one first.
  abbrev pub block_range : ℕ → ℕ → List Block
  block_range n zero = []
  block_range n (suc k) = block_of (n + k) ∷ block_range n k

  abbrev pub HasEnded : List Block → Machine → Type 0
  HasEnded blocks m = (m.goroutine ≡ idle) × (inserted_blocks m.indexer.calls ≡ blocks)
