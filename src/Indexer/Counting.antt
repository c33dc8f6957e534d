-- ===== src/Indexer/Counting.antt =====
-- The calls that the indexer has made outside, against what it says of itself.
use relayer2_public.Base.{
  ℕ, suc, ◌+◌, ◌%◌, ◌≡◌, inl, inr, Bool, true, false, Option, none, some, List, [], ◌∷◌, arith,
  u64_mod, Keeps, Keeps-bind,
}
use relayer2_public.Indexer.State.{
  Block, Call, inserted, published_heads, published_logs, removed, Indexer, World,
}
use relayer2_public.Indexer.Phases.{
  Phase, to_read, to_insert, to_publish, to_remove_file, to_remove_folder, to_increment, to_stop,
  step,
}
use relayer2_public.Indexer.Machine.{
  Goroutine, calling, polling, idle, Machine, Event, call_next, poll, start_indexer, close_indexer,
  handle, run,
}
use relayer2_public.Indexer.Invariant.{FileRead-cases}

-- The blocks inserted, the latest first.
abbrev pub inserted_blocks : List Call → List Block
inserted_blocks [] = []
inserted_blocks (inserted block ∷ calls) = block ∷ inserted_blocks calls
inserted_blocks (published_heads _ ∷ calls) = inserted_blocks calls
inserted_blocks (published_logs _ ∷ calls) = inserted_blocks calls
inserted_blocks (removed _ ∷ calls) = inserted_blocks calls

abbrev pub count_inserted : List Call → ℕ
count_inserted [] = 0
count_inserted (inserted _ ∷ calls) = suc (count_inserted calls)
count_inserted (published_heads _ ∷ calls) = count_inserted calls
count_inserted (published_logs _ ∷ calls) = count_inserted calls
count_inserted (removed _ ∷ calls) = count_inserted calls

-- 1 where the current block is inserted and not yet counted.
abbrev pub pending : Option Phase → ℕ
pending (some to_publish) = 1
pending (some to_remove_file) = 1
pending (some to_remove_folder) = 1
pending (some to_increment) = 1
pending _ = 0

abbrev pub IsCounted : Option Phase → Indexer → Type 0
IsCounted next i =
    (count_inserted i.calls) % u64_mod ≡ (i.s.stats.total_blocks_indexed + pending next) % u64_mod

-- Each successful insertion is counted once: between two calls the number of insertions is, as a
-- 64-bit number, the total of the statistics, plus one while the current block waits to be counted.
pub step-IsCounted :
    (p : Phase) (w : World) (i : Indexer)
    → IsCounted (some p) i
    → Keeps (λ r. IsCounted r.0 r.1) (step p w i)
unfolding step
step-IsCounted to_read w i h = elim (FileRead-cases (w.read_file i.s.file_path)) [
  | inl missing ↦ ground arith
  | inr (inl broken) ↦ ground arith
  | inr (inr (buff, found)) ↦ ground arith
]
step-IsCounted to_insert w i h = ground arith
step-IsCounted to_publish w i h = ground arith
step-IsCounted to_remove_file w i h = ground arith
step-IsCounted to_remove_folder w i h = ground arith
step-IsCounted to_increment w i h = ground arith
step-IsCounted to_stop w i h = ground arith

abbrev pub removals : List Call → ℕ
removals [] = 0
removals (removed _ ∷ calls) = suc (removals calls)
removals (inserted _ ∷ calls) = removals calls
removals (published_heads _ ∷ calls) = removals calls
removals (published_logs _ ∷ calls) = removals calls

abbrev is_removal : Phase → Bool
is_removal to_remove_file = true
is_removal to_remove_folder = true
is_removal _ = false

-- Files are kept, `n` removals have been made, and no function that removes comes next.
abbrev pub KeepsFiles : Option Phase → ℕ → Indexer → Type 0
KeepsFiles none n i = (i.c.keep_files ≡ true) × (removals i.calls ≡ n)
KeepsFiles (some p) n i = (i.c.keep_files ≡ true) × (removals i.calls ≡ n) × (is_removal p ≡ false)

step-KeepsFiles :
    (p : Phase) (w : World) (n : ℕ) (i : Indexer)
    → KeepsFiles (some p) n i
    → Keeps (λ r. KeepsFiles r.0 n r.1) (step p w i)
unfolding step
step-KeepsFiles to_read w n i h = elim (FileRead-cases (w.read_file i.s.file_path)) [
  | inl missing ↦ ground arith
  | inr (inl broken) ↦ ground arith
  | inr (inr (buff, found)) ↦ ground arith
]
step-KeepsFiles to_insert w n i h = ground arith
step-KeepsFiles to_publish w n i h = ground arith
step-KeepsFiles to_remove_file w n i h = ground arith
step-KeepsFiles to_remove_folder w n i h = ground arith
step-KeepsFiles to_increment w n i h = ground arith
step-KeepsFiles to_stop w n i h = ground arith

abbrev pub MachineKeepsFiles : ℕ → Goroutine → Indexer → Type 0
MachineKeepsFiles n (calling next) i = KeepsFiles next n i
MachineKeepsFiles n (polling next) i = KeepsFiles next n i
MachineKeepsFiles n idle i = KeepsFiles none n i

call_phase-KeepsFiles :
    (w : World) (n : ℕ) (g : Goroutine) (i : Indexer)
    → MachineKeepsFiles n g i
    → Keeps
        (λ m. MachineKeepsFiles n m.goroutine m.indexer)
        (handle (call_next w) (record { indexer = i; goroutine = g }))
unfolding handle
call_phase-KeepsFiles w n (calling (some p)) i h =
    Keeps-bind (λ r. KeepsFiles r.0 n r.1) _ (step p w i) _ (step-KeepsFiles p w n i h) (λ r k. k)
call_phase-KeepsFiles w n (calling none) i h = tt
call_phase-KeepsFiles w n (polling next) i h = h
call_phase-KeepsFiles w n idle i h = h

handle-KeepsFiles :
    (e : Event) (n : ℕ) (m : Machine)
    → MachineKeepsFiles n m.goroutine m.indexer
    → Keeps (λ m'. MachineKeepsFiles n m'.goroutine m'.indexer) (handle e m)
unfolding handle
handle-KeepsFiles (call_next w) n m h = call_phase-KeepsFiles w n m.goroutine m.indexer h
handle-KeepsFiles poll n m h = ground arith
handle-KeepsFiles (start_indexer now) n m h = ground arith
handle-KeepsFiles (close_indexer w) n m h = ground arith

-- With `keepFiles` set no file and no folder is ever removed, whatever the events and the answers of
-- the outside are.
pub run-KeepsFiles :
    (es : List Event) (n : ℕ) (m : Machine)
    → MachineKeepsFiles n m.goroutine m.indexer
    → Keeps (λ m'. removals m'.indexer.calls ≡ n) (run es m)
unfolding run
run-KeepsFiles [] n m h = ground arith
run-KeepsFiles (e ∷ es) n m h =
    Keeps-bind (λ m'. MachineKeepsFiles n m'.goroutine m'.indexer) _ (handle e m) (run es)
      (handle-KeepsFiles e n m h) (λ m' k. run-KeepsFiles es n m' k)
