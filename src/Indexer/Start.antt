-- ===== src/Indexer/Start.antt =====
-- Where an indexer made by `New` begins, and when `New` refuses.
use relayer2_public.Base.{ℕ, ◌+◌, ◌≤◌, ◌<◌, ◌≡◌, ◌⊎◌, true, false, some, arith, u64_mod, done}
use relayer2_public.Indexer.Config.{Config}
use relayer2_public.Indexer.State.{Indexer, World}
use relayer2_public.Indexer.Machine.{made, new, indexer_at, first_block}

-- An indexer that `New` makes begins at the configured first block or at the one that the genesis
-- block and the database give, whichever is the later, and this is below `toBlock`, if there is one.
new-curr_block :
    (config : Config) (w : World) {i : Indexer}
    → new true config w ≡ done (made i)
    → (config.from_block ≤ i.s.curr_block)
      × ((first_block config w.block_number).0 ≤ i.s.curr_block)
      × ((i.s.curr_block ≡ config.from_block)
          ⊎ (i.s.curr_block ≡ (first_block config w.block_number).0))
      × ((config.to_block ≡ 0) ⊎ (i.s.curr_block < config.to_block))
unfolding new indexer_at
new-curr_block config w e = ground arith

-- Without `forceReindex` the indexer begins after the latest block of the database, if that is no block
-- from before the genesis block.
new_after_latest :
    (config : Config) (w : World) {bn : ℕ} {i : Indexer}
    → config.force_reindex ≡ false
    → w.block_number ≡ (some bn, false)
    → config.genesis_block ≤ bn
    → bn + 1 < u64_mod
    → new true config w ≡ done (made i)
    → bn < i.s.curr_block
unfolding new indexer_at first_block
new_after_latest config w f b g fits e = ground arith
