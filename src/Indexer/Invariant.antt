-- ===== src/Indexer/Invariant.antt =====
-- What holds of the indexer between two functions of its state machine.
use relayer2_public.Base.{
  ℕ, ◌*◌, ◌/◌, ◌≤◌, ◌<◌, ◌≡◌, refl, ◌⊎◌, inl, inr, Bool, true, false, Option, none, some, List,
  arith, is_some, Returns, done,
}
use relayer2_public.Indexer.Config.{Config}
use relayer2_public.Indexer.Machine.{made, new, indexer_at}
use relayer2_public.Indexer.State.{
  Block, Indexer, World, FileRead, not_exist, unreadable, contents, sub_folder, block_file,
}
use relayer2_public.Indexer.Phases.{
  Phase, to_read, to_insert, to_publish, to_remove_file, to_remove_folder, to_increment, to_stop,
  step,
}

-- The sub folder and the paths belong to the current block, and the retries stay in their bound.
pub record IsValid (i : Indexer) : Type 0 where
  pub batched : 0 < i.s.batch_size
  pub in_batch : i.s.sub_block ≡ i.s.curr_block / i.s.batch_size * i.s.batch_size
  pub in_folder : i.s.sub_block_path ≡ sub_folder i.c.source_folder i.s.sub_block
  pub in_file : i.s.file_path ≡ block_file i.c.source_folder i.s.sub_block i.s.curr_block
  pub retried : i.s.retry_count ≤ i.c.retry_count_on_failure
  pub small : i.c.retry_count_on_failure < 256

abbrev pub needs_block : Option Phase → Bool
needs_block (some to_insert) = true
needs_block (some to_publish) = true
needs_block _ = false

-- The function that comes next can run: it finds the block that it reads, and `stopCh` is open
-- until `stop` has closed it.
pub record IsReady (next : Option Phase) (i : Indexer) : Type 0 where
  pub valid : IsValid i
  pub loaded : needs_block next ≡ true → is_some i.s.block ≡ true
  pub opened : is_some next ≡ true → i.stop_closed ≡ false
  pub closed : next ≡ none → i.stop_closed ≡ true

-- The database knows a latest block, and the decoder gives a block where it gives no error.
pub record IsSane (w : World) : Type 0 where
  pub known : is_some w.block_number.0 ≡ true
  pub decoded :
      (buff : List ℕ) (old : Option Block)
      → (w.unmarshal buff old).1 ≡ false
      → is_some (w.unmarshal buff old).0 ≡ true

-- The three answers of the file system.
pub FileRead-cases :
    (r : FileRead) → (r ≡ not_exist) ⊎ (r ≡ unreadable) ⊎ ((buff : List ℕ) × (r ≡ contents buff))
FileRead-cases not_exist = inl refl
FileRead-cases unreadable = inr (inl refl)
FileRead-cases (contents buff) = inr (inr (buff, refl))

-- From a ready state, in a sane world, every function of the state machine returns without panic,
-- and leaves a ready state.
pub step-IsReady :
    (p : Phase) (w : World) (i : Indexer)
    → IsReady (some p) i
    → IsSane w
    → Returns (λ r. IsReady r.0 r.1) (step p w i)
unfolding step
step-IsReady to_read w i h sane = elim (FileRead-cases (w.read_file i.s.file_path)) [
  | inl missing ↦ ground arith
  | inr (inl broken) ↦ ground arith
  | inr (inr (buff, found)) ↦ ground (arith, sane.decoded buff i.s.block)
]
step-IsReady to_insert w i h sane = ground arith
step-IsReady to_publish w i h sane = ground arith
step-IsReady to_remove_file w i h sane = ground arith
step-IsReady to_remove_folder w i h sane = ground arith
step-IsReady to_increment w i h sane = ground arith
step-IsReady to_stop w i h sane = ground arith

-- An indexer made by `New` is ready to read: its paths are those of the first block.
new-IsReady :
    (has_db : Bool) (config : Config) (w : World) {i : Indexer}
    → config.retry_count_on_failure < 256
    → new has_db config w ≡ done (made i)
    → IsReady (some to_read) i
unfolding new indexer_at
new-IsReady has_db config w h e = ground arith
