-- ===== src/Endpoint/EngineEth/Tests.antt =====
-- The theorems about the methods at concrete inputs.
use relayer2_public.Base.{ℕ, ◌≡◌, refl, Option, some, none, [], ◌∷◌, ok, err, done}
use relayer2_public.Base.Int.{pos, negsuc}
use relayer2_public.Account.Value.{null}
use relayer2_public.Account.Reads.{fail, plain, Connections}
use relayer2_public.Account.Examples.{decoders}
use relayer2_public.Endpoint.EngineEth.{
  BlockNumberOrHash, BlockNumbers, Db, block_number_by_number_or_hash, should_use_archival,
  older_than_epoch, by_hash, number_of_hash, at_block, with_block,
}
use relayer2_public.Endpoint.EngineEth.Methods.{get_balance}
use relayer2_public.Endpoint.EngineEth.Archival.{AnswersAlike, recent-AnswersAlike}

abbrev numbers : BlockNumbers
numbers = record { latest = negsuc 0; int64_of = λ bn. some bn }

abbrev db : Db
db = record { block_number = ok (some 100_000); block_hash_to_number = λ _. err "key not found" }

abbrev both : Connections
both = record { near_account = λ _ _ _. ok null; near_archival_account = λ _ _ _. ok null }

abbrev near_only : Connections
near_only = record { near_account = λ _ _ _. ok null; near_archival_account = λ _ _ _. err "down" }

abbrev archival_only : Connections
archival_only = record {
  near_account = λ _ _ _. err "down";
  near_archival_account = λ _ _ _. ok null;
}

abbrev at : ℕ → Option BlockNumberOrHash
at n = some (record { number = some (pos n); hash = none })

recent-AnswersAlike_example :
    AnswersAlike decoders both near_only numbers db (at 56_801) (pos 56_801) (1 ∷ [])
unfolding block_number_by_number_or_hash should_use_archival older_than_epoch
recent-AnswersAlike_example =
    recent-AnswersAlike decoders both near_only numbers db (at 56_801) (pos 56_801) (1 ∷ []) refl
      refl refl

-- A hash that the database does not know is an error, whatever the nodes would answer.
unknown_hash :
    get_balance decoders both numbers db [] (some (record { number = none; hash = some "0xab" }))
    ≡ done (fail (plain "key not found"))
unfolding get_balance at_block with_block block_number_by_number_or_hash by_hash number_of_hash
unknown_hash = refl
