-- ===== src/Indexer/Phases.antt =====
-- The functions of type `processIndexerState` in indexer/indexer.go. Each returns the function to
-- call next, which is nil (`none`) after `stop`, and the indexer that it leaves. A sleep is left out.
use relayer2_public.Base.{
  ℕ, ◌+◌, ◌*◌, ◌/◌, ◌%◌, Bool, true, false, not, ◌&&◌, Option, none, some, ◌∷◌, ltb, leb, ◌==◌,
  if◌then◌else◌, u64_mod, Run, done, panic, ◌>>=◌, deref,
}
use relayer2_public.Indexer.State.{
  Block, FilePath, sub_folder, block_file, Indexer, inserted, published_heads, published_logs,
  removed, Call, not_exist, unreadable, contents, World,
}

pub data Phase : Type 0 where
  to_read to_insert to_publish to_remove_file to_remove_folder to_increment to_stop : Phase

abbrev pub Next : Type 0
Next = Run (Option Phase × Indexer)

-- `evalError`, where `err` says that there is an error: the phase to go to instead, if any.
unfoldable pub eval_error : Bool → Phase → Phase → Indexer → Option Phase × Indexer
eval_error err on_retry on_fail i =
    if not err
    then (none, i)
    else if ltb i.s.retry_count i.c.retry_count_on_failure
    then (
      some on_retry,
      record i { s = record (i.s) { retry_count = (i.s.retry_count + 1) % 256 } },
    )
    else (some on_fail, i)

-- `if next := i.evalError(…); next != nil { return next }`, and the code behind it.
abbrev pub or_next : Option Phase × Indexer → (Indexer → Next) → Next
or_next (none, i) rest = rest i
or_next (some p, i) rest = done (some p, i)

abbrev pub record_call : Call → Indexer → Indexer
record_call call i = record i { calls = call ∷ i.calls }

parse : World → Option Block × Bool → Indexer → Next
unfolding eval_error
parse w (block, err) i =
    or_next (eval_error err to_read to_stop (record i { s = record (i.s) { block = block } }))
      (λ j. done (some to_insert, j))

-- A file that is missing is waited for, with no limit and no retry counted.
unfoldable pub read : World → Indexer → Next
unfolding eval_error parse
read w i = elim (w.read_file i.s.file_path) [
  | not_exist ↦ done (some to_read, i)
  | unreadable ↦ or_next (eval_error true to_read to_stop i) (λ j. done (some to_insert, j))
  | contents buff ↦ parse w (w.unmarshal buff i.s.block) i
]

unfoldable pub insert : World → Indexer → Next
unfolding eval_error
insert w i = do
  block ← deref i.s.block
  or_next (eval_error (w.insert_block block) to_insert to_stop i)
      λ j. done (some to_publish, record_call (inserted block) j)

abbrev publish_to_broker : World → Block → Indexer → Indexer
publish_to_broker w block i =
    let bn = block.height in
    let j = if w.get_block_by_number bn then i else record_call (published_heads bn) i in
    if w.get_logs bn then j else record_call (published_logs bn) j

unfoldable pub publish : World → Indexer → Next
publish w i = do
  j ←
      if i.has_broker
      then (deref i.s.block >>= λ block. done (publish_to_broker w block i))
      else done i
  done (some (if j.c.keep_files then to_increment else to_remove_file), j)

abbrev is_dir_empty : World → FilePath → Bool
is_dir_empty w dir = elim (w.read_dir dir) [ none ↦ false | some n ↦ n == 0 ]

unfoldable pub remove_file : World → Indexer → Next
unfolding eval_error
remove_file w i = or_next (eval_error (w.remove i.s.file_path) to_remove_file to_increment i) λ j.
    let k = record_call (removed j.s.file_path) j in
    done (
      some (
          if (k.s.curr_block + 1) % u64_mod == (k.s.sub_block + k.s.batch_size) % u64_mod
            && is_dir_empty w k.s.sub_block_path
          then to_remove_folder
          else to_increment),
      k,
    )

unfoldable pub remove_folder : World → Indexer → Next
unfolding eval_error
remove_folder w i =
    or_next (eval_error (w.remove i.s.sub_block_path) to_remove_folder to_increment i)
      λ j. done (some to_increment, record_call (removed j.s.sub_block_path) j)

-- The end of `increment`: the indexer moves on to the block after `from`.
abbrev moved_to : World → ℕ → Indexer → Indexer
moved_to w curr i =
    let sub = curr / i.s.batch_size * i.s.batch_size in
    record i {
      s = record (i.s) {
        curr_block = curr;
        sub_block = sub;
        retry_count = 0;
        block = none;
        sub_block_path = sub_folder i.c.source_folder sub;
        file_path = block_file i.c.source_folder sub curr;
        stats = record (i.s.stats) { block_indexing_start_time = w.now };
      };
    }

-- A batch size of 0 is a division by zero.
advance : World → ℕ → Indexer → Next
advance w from i =
    if i.s.batch_size == 0 then panic else done (some to_read, moved_to w ((from + 1) % u64_mod) i)

-- After a re-indexing the latest block of the database comes next.
resume : World → Option ℕ × Bool → Indexer → Next
unfolding advance
resume w (_, true) i = done (some to_stop, i)
resume w (none, false) i = done (some to_stop, i)
resume w (some last, false) i = advance w last (record i { c = record (i.c) { to_block = 0 } })

abbrev count_block : Indexer → Indexer
count_block i = record i {
  s = record (i.s) {
    stats = record (i.s.stats) {
      total_blocks_indexed = (i.s.stats.total_blocks_indexed + 1) % u64_mod;
    };
  };
}

unfoldable pub increment : World → Indexer → Next
unfolding advance resume
increment w i =
    let j = count_block i in
    if ltb 0 j.c.to_block && leb j.c.to_block j.s.curr_block
    then (if not j.c.force_reindex then done (some to_stop, j) else resume w w.block_number j)
    else advance w j.s.curr_block j

-- The log line dereferences the latest block number also where the database gave an error.
unfoldable pub stop : World → Indexer → Next
stop w i = do
  last ← deref w.block_number.0
  if i.stop_closed then panic else done (none, record i { stop_closed = true })

unfoldable pub step : Phase → World → Indexer → Next
unfolding read insert publish remove_file remove_folder increment stop
step to_read w i = read w i
step to_insert w i = insert w i
step to_publish w i = publish w i
step to_remove_file w i = remove_file w i
step to_remove_folder w i = remove_folder w i
step to_increment w i = increment w i
step to_stop w i = stop w i
