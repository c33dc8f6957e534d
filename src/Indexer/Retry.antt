-- ===== src/Indexer/Retry.antt =====
-- The retries of indexer/indexer.go: one count serves all the functions that a block goes through.
use relayer2_public.Base.{
  ℕ, suc, ◌+◌, ◌-◌, ◌∙◌, ◌≤◌, ◌<◌, ◌≡◌, ◌≢◌, refl, inl, inr, true, false, some, List, [], ◌∷◌,
  arith, All, length, done, Keeps,
}
use relayer2_public.Indexer.State.{Block, Indexer, World, not_exist}
use relayer2_public.Indexer.Phases.{
  Phase, to_read, to_insert, to_publish, to_remove_file, to_remove_folder, to_increment, to_stop,
  step,
}
use relayer2_public.Indexer.Machine.{run}
use relayer2_public.Indexer.Invariant.{IsValid, FileRead-cases}
use relayer2_public.Indexer.Loop.{rounds, at_call, run-round_open}

-- How many calls of the current function may still fail: each failure below the limit is one retry.
abbrev pub retries_left : Indexer → ℕ
retries_left i = i.c.retry_count_on_failure - i.s.retry_count

-- A function that is to be called again at once, and did not wait for a missing file, has used up
-- one of the retries of the block.
step_again :
    (p : Phase) (w : World) (i j : Indexer)
    → IsValid i
    → w.read_file i.s.file_path ≢ not_exist
    → step p w i ≡ done (some p, j)
    → suc (retries_left j) ≡ retries_left i
unfolding step
step_again to_read w i j h ne e = elim (FileRead-cases (w.read_file i.s.file_path)) [
  | inl missing ↦ ground arith
  | inr (inl broken) ↦ ground arith
  | inr (inr (buff, found)) ↦ ground arith
]
step_again to_insert w i j h ne e = ground arith
step_again to_publish w i j h ne e = ground arith
step_again to_remove_file w i j h ne e = ground arith
step_again to_remove_folder w i j h ne e = ground arith
step_again to_increment w i j h ne e = ground arith
step_again to_stop w i j h ne e = ground arith

-- No function but `increment` gives retries back.
step_retries :
    (p : Phase) (w : World) (i : Indexer)
    → IsValid i
    → p ≢ to_increment
    → Keeps (λ r. retries_left r.1 ≤ retries_left i) (step p w i)
unfolding step
step_retries to_read w i h ne = elim (FileRead-cases (w.read_file i.s.file_path)) [
  | inl missing ↦ ground arith
  | inr (inl broken) ↦ ground arith
  | inr (inr (buff, found)) ↦ ground arith
]
step_retries to_insert w i h ne = ground arith
step_retries to_publish w i h ne = ground arith
step_retries to_remove_file w i h ne = ground arith
step_retries to_remove_folder w i h ne = ground arith
step_retries to_increment w i h ne = absurd (ne refl)
step_retries to_stop w i h ne = ground arith

abbrev pub with_retries : ℕ → Indexer → Indexer
with_retries n i = record i { s = record (i.s) { retry_count = n } }

insert_again :
    (w : World) (i : Indexer) (block : Block)
    → i.s.block ≡ some block
    → w.insert_block block ≡ true
    → i.s.retry_count < i.c.retry_count_on_failure
    → i.c.retry_count_on_failure < 256
    → step to_insert w i ≡ done (some to_insert, with_retries (suc i.s.retry_count) i)
unfolding step
insert_again w i block b fails more small = ground arith

insert_last :
    (w : World) (i : Indexer) (block : Block)
    → i.s.block ≡ some block
    → w.insert_block block ≡ true
    → i.s.retry_count ≡ i.c.retry_count_on_failure
    → step to_insert w i ≡ done (some to_stop, i)
unfolding step
insert_last w i block b fails last = ground arith

-- An insertion that always fails is tried once more for each retry that is left, and then the
-- indexer goes on to `stop`.
pub run-insert_fails :
    (ws : List World) (i : Indexer) (block : Block)
    → i.s.block ≡ some block
    → All (λ w. w.insert_block block ≡ true) ws
    → i.stop_closed ≡ false
    → i.c.retry_count_on_failure < 256
    → i.s.retry_count + length ws ≡ suc i.c.retry_count_on_failure
    → i.s.retry_count ≤ i.c.retry_count_on_failure
    → run (rounds ws) (at_call to_insert i)
      ≡ done (at_call to_stop (with_retries i.c.retry_count_on_failure i))
run-insert_fails [] i block b fails opened small count le = absurd (omega arith)
run-insert_fails (w ∷ []) i block b fails opened small count le =
    let last : i.s.retry_count ≡ i.c.retry_count_on_failure = omega arith in
    run-round_open to_insert to_stop w i i [] (insert_last w i block b fails.0 last) opened
    ∙ unfold run in (rw (← last))
run-insert_fails (w ∷ v ∷ ws) i block b fails opened small count le =
    let j = with_retries (suc i.s.retry_count) i in
    run-round_open to_insert to_insert w i j (rounds (v ∷ ws))
      (insert_again w i block b fails.0 (omega arith) small) opened
    ∙ run-insert_fails (v ∷ ws) j block b fails.1 opened small (omega arith) (omega arith)
