-- ===== src/Indexer/Tests.antt =====
-- The theorems about the indexer at concrete inputs, and runs of the model.
use relayer2_public.Base.{
  ℕ, String, ◌≡◌, refl, Bool, true, false, Option, none, some, List, [], ◌∷◌, arith, done, Returns,
  Keeps,
}
use relayer2_public.Indexer.Config.{Config}
use relayer2_public.Indexer.State.{
  Block, FilePath, sub_folder, block_file, Indexer, FileRead, not_exist, contents, World,
}
use relayer2_public.Indexer.Phases.{to_read, to_insert, to_stop, step}
use relayer2_public.Indexer.Machine.{made, new, indexer_at, run}
use relayer2_public.Indexer.Invariant.{IsReady, IsSane, step-IsReady}
use relayer2_public.Indexer.Loop.{rounds, IsAlive, at_call, run-rounds-IsAlive}
use relayer2_public.Indexer.Counting.{IsCounted, step-IsCounted, removals, run-KeepsFiles}
use relayer2_public.Indexer.Range.{Lap, range_events}
use relayer2_public.Indexer.Retry.{with_retries, run-insert_fails}

abbrev block_of : ℕ → Block
block_of n = record { height = n; chain_id = 1_313_161_554 }

abbrev encode : ℕ → List ℕ
encode n = n ∷ []

abbrev file_of : FilePath → FileRead
file_of (sub_folder _ _) = not_exist
file_of (block_file _ _ n) = contents (encode n)

abbrev decode : List ℕ → Option Block → Option Block × Bool
decode [] old = (old, true)
decode (n ∷ _) old = (some (block_of n), false)

-- A world in which nothing fails.
abbrev calm : World
calm = record {
  now = 0;
  read_file = file_of;
  unmarshal = decode;
  remove = λ _. false;
  read_dir = λ _. some 0;
  insert_block = λ _. false;
  block_number = (some 5, false);
  get_block_by_number = λ _. false;
  get_logs = λ _. false;
}

-- One in which the database refuses every block.
abbrev full : World
full = record calm { insert_block = λ _. true }

abbrev folder : String
folder = "/json"

abbrev config : Config
config = record {
  keep_files = true;
  force_reindex = false;
  retry_count_on_failure = 1;
  sub_folder_batch_size = 10;
  genesis_block = 3;
  from_block = 9;
  to_block = 10;
  source_folder = folder;
  wait_for_block_ms = 500;
}

-- The indexer that `New` makes of it.
abbrev first : Indexer
first = record {
  c = config;
  s = record {
    curr_block = 9;
    sub_block = 0;
    batch_size = 10;
    file_path = block_file folder 0 9;
    sub_block_path = sub_folder folder 0;
    retry_count = 0;
    started = false;
    block = none;
    stats = record { total_blocks_indexed = 0; block_indexing_start_time = 0 };
  };
  has_broker = false;
  stop_closed = false;
  calls = [];
}

new_first : new true config calm ≡ done (made first)
unfolding new indexer_at
new_first = refl

first-IsReady : IsReady (some to_read) first
first-IsReady = ground arith

calm-IsSane : IsSane calm
calm-IsSane = record { known = refl; decoded = decode_known }
  where
    decode_known :
        (buff : List ℕ) (old : Option Block)
        → (decode buff old).1 ≡ false
        → (elim (decode buff old).0 [ none ↦ false | some _ ↦ true ]) ≡ true
    decode_known [] old h = cc
    decode_known (n ∷ _) old h = refl

abbrev lap : Lap
lap = record { at_read = calm; at_insert = calm; at_publish = calm; at_increment = calm }

step-IsReady_example : Returns (λ r. IsReady r.0 r.1) (step to_read calm first)
step-IsReady_example = step-IsReady to_read calm first first-IsReady calm-IsSane

run-rounds-IsAlive_example :
    Returns
      (λ n. IsAlive n.goroutine n.indexer)
      (run (rounds (calm ∷ full ∷ [])) (at_call to_read first))
run-rounds-IsAlive_example =
    run-rounds-IsAlive (calm ∷ full ∷ []) (at_call to_read first)
      (calm-IsSane, (record { known = refl; decoded = calm-IsSane.decoded }, tt)) first-IsReady

step-IsCounted_example : Keeps (λ r. IsCounted r.0 r.1) (step to_read calm first)
step-IsCounted_example = step-IsCounted to_read calm first refl

run-KeepsFiles_example :
    Keeps
      (λ m. removals m.indexer.calls ≡ 0)
      (run (range_events (lap ∷ []) calm) (at_call to_read first))
run-KeepsFiles_example =
    run-KeepsFiles (range_events (lap ∷ []) calm) 0 (at_call to_read first) (refl, refl, refl)

-- The first indexer with its block decoded.
abbrev loaded : Indexer
loaded = record first { s = record (first.s) { block = some (block_of 9) } }

run-insert_fails_example :
    run (rounds (full ∷ full ∷ [])) (at_call to_insert loaded)
    ≡ done (at_call to_stop (with_retries 1 loaded))
run-insert_fails_example =
    run-insert_fails (full ∷ full ∷ []) loaded (block_of 9) refl (refl, (refl, tt)) refl
      (omega arith) refl (omega arith)
