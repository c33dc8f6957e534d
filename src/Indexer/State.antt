-- ===== src/Indexer/State.antt =====
-- The data of indexer/indexer.go. A 64-bit counter is a number, reduced where the code adds to it.
-- The floating-point rate in the statistics is never written and is left out, as is logging.
use relayer2_public.Base.{ℕ, String, Bool, Option, List}
use relayer2_public.Indexer.Config.{Config}

-- The two fields of the decoded block that the indexer reads.
pub record Block : Type 0 where
  pub height : ℕ
  pub chain_id : ℕ

-- The paths that `filepath.Join` and `Sprintf` make from the source folder, the number of a sub
-- folder and the number of a block.
pub data FilePath : Type 0 where
  sub_folder : String → ℕ → FilePath
  block_file : String → ℕ → ℕ → FilePath

pub record IndexerStats : Type 0 where
  pub total_blocks_indexed : ℕ
  pub block_indexing_start_time : ℕ

pub record IndexerState : Type 0 where
  pub curr_block : ℕ
  pub sub_block : ℕ
  pub batch_size : ℕ
  pub file_path : FilePath
  pub sub_block_path : FilePath
  pub retry_count : ℕ  -- uint8
  pub started : Bool
  pub block : Option Block
  pub stats : IndexerStats

-- What the indexer has done outside, besides reading: the calls that returned no error.
pub data Call : Type 0 where
  inserted : Block → Call
  published_heads : ℕ → Call
  published_logs : ℕ → Call
  removed : FilePath → Call

-- `has_broker` says that the broker is not nil, `stop_closed` that `stopCh` is closed; `calls` has
-- the latest call first.
pub record Indexer : Type 0 where
  pub c : Config
  pub s : IndexerState
  pub has_broker : Bool
  pub stop_closed : Bool
  pub calls : List Call

pub data FileRead : Type 0 where
  not_exist : FileRead
  unreadable : FileRead
  contents : List ℕ → FileRead

-- What the file system, the JSON decoder and the database answer at one moment. `true` stands for
-- an error. The decoder is given the block that it overwrites; an answer of the database is a
-- pointer, which may be nil, with an error.
pub record World : Type 0 where
  pub now : ℕ
  pub read_file : FilePath → FileRead
  pub unmarshal : List ℕ → Option Block → Option Block × Bool
  pub remove : FilePath → Bool
  pub read_dir : FilePath → Option ℕ
  pub insert_block : Block → Bool
  pub block_number : Option ℕ × Bool
  pub get_block_by_number : ℕ → Bool
  pub get_logs : ℕ → Bool
