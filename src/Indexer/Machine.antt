-- ===== src/Indexer/Machine.antt =====
-- `New`, `NewWithBroker`, `Start`, `Close` and the goroutine `index` of indexer/indexer.go. A run is a
-- list of events: the goroutine calls the current function, the goroutine looks at `stopCh`, another
-- goroutine calls `Start` or `Close`. The mutex makes these last two and the end of `index` whole.
use relayer2_public.Base.{
  ℕ, ◌+◌, ◌*◌, ◌/◌, ◌%◌, Bool, true, false, not, ◌&&◌, Option, none, some, List, [], ◌∷◌, ltb, leb,
  ◌==◌, if◌then◌else◌, u64_mod, Run, done, panic, ◌>>=◌,
}
use relayer2_public.Indexer.Config.{Config, default_to_block}
use relayer2_public.Indexer.State.{sub_folder, block_file, Indexer, World}
use relayer2_public.Indexer.Phases.{Phase, to_read, step, stop}

pub data NewError : Type 0 where
  no_db_handler no_broker : NewError
  already_indexed : ℕ → NewError
  invalid_range : ℕ → ℕ → NewError

pub data New : Type 0 where
  made : Indexer → New
  refused : NewError → New

-- The least block to start from, and whether the database moved it.
unfoldable pub first_block : Config → Option ℕ × Bool → ℕ × Bool
first_block config (some bn, false) =
    if not config.force_reindex && leb config.genesis_block bn
    then ((bn + 1) % u64_mod, true)
    else (config.genesis_block, false)
first_block config _ = (config.genesis_block, false)

unfoldable pub indexer_at : Config → ℕ → Indexer
indexer_at config now =
    let bs = config.sub_folder_batch_size in
    let sb = config.from_block / bs * bs in
    record {
      c = config;
      s = record {
        curr_block = config.from_block;
        sub_block = sb;
        batch_size = bs;
        file_path = block_file config.source_folder sb config.from_block;
        sub_block_path = sub_folder config.source_folder sb;
        retry_count = 0;
        started = false;
        block = none;
        stats = record { total_blocks_indexed = 0; block_indexing_start_time = now };
      };
      has_broker = false;
      stop_closed = false;
      calls = [];
    }

-- The checks of `New` once the first block is known; `origin` is the configured one.
check_range : Config → ℕ → Bool → ℕ → Run New
unfolding indexer_at
check_range config origin updated now =
    if ltb default_to_block config.to_block && leb config.to_block config.from_block
    then done (
        refused (
          if updated && ltb origin config.to_block
          then already_indexed config.from_block
          else invalid_range config.to_block config.from_block))
    else if config.sub_folder_batch_size == 0
    then panic
    else done (made (indexer_at config now))

unfoldable pub new : Bool → Config → World → Run New
unfolding first_block check_range
new has_db config w =
    if not has_db
    then done (refused no_db_handler)
    else let (from, updated) = first_block config w.block_number in
      check_range
        (record config {
          from_block = if ltb config.from_block from then from else config.from_block;
        })
        config.from_block updated w.now

with_broker : New → New
with_broker (made i) = made (record i { has_broker = true })
with_broker (refused e) = refused e

unfoldable pub new_with_broker : Bool → Bool → Config → World → Run New
unfolding new with_broker
new_with_broker has_broker has_db config w =
    if not has_broker
    then done (refused no_broker)
    else (new has_db config w >>= λ r. done (with_broker r))

-- Where the goroutine stands: before a call, before the `select`, or not running.
pub data Goroutine : Type 0 where
  calling polling : Option Phase → Goroutine
  idle : Goroutine

pub record Machine : Type 0 where
  pub indexer : Indexer
  pub goroutine : Goroutine

pub data Event : Type 0 where
  call_next : World → Event
  poll : Event
  start_indexer : ℕ → Event
  close_indexer : World → Event

abbrev set_started : Bool → Indexer → Indexer
set_started b i = record i { s = record (i.s) { started = b } }

unfoldable pub start : ℕ → Machine → Machine
start now m =
    if not m.indexer.s.started
    then (let i = set_started true m.indexer in
        record {
          indexer = record i {
            s = record (i.s) { stats = record (i.s.stats) { block_indexing_start_time = now } };
          };
          goroutine = calling (some to_read);
        })
    else m

unfoldable pub close : World → Machine → Run Machine
unfolding stop
close w m =
    if m.indexer.s.started
    then (stop w m.indexer >>= λ r. done (record m { indexer = r.1 }))
    else done m

-- One round of `index`: `f = f(i)`. A call of a nil function panics.
call_phase : Goroutine → World → Machine → Run Machine
unfolding step
call_phase (calling (some p)) w m = do
  (next, i) ← step p w m.indexer
  done (record { indexer = i; goroutine = polling next })
call_phase (calling none) w m = panic
call_phase _ w m = done m

-- The `select` of `index`: with `stopCh` closed the goroutine ends.
poll_stop : Goroutine → Machine → Machine
poll_stop (polling next) m =
    if m.indexer.stop_closed
    then record { indexer = set_started false m.indexer; goroutine = idle }
    else record m { goroutine = calling next }
poll_stop _ m = m

unfoldable pub handle : Event → Machine → Run Machine
unfolding call_phase poll_stop start close
handle (call_next w) m = call_phase m.goroutine w m
handle poll m = done (poll_stop m.goroutine m)
handle (start_indexer now) m = done (start now m)
handle (close_indexer w) m = close w m

unfoldable pub run : List Event → Machine → Run Machine
run [] m = done m
run (e ∷ es) m = handle e m >>= run es
