-- ===== src/Account/Reads/Errors.antt =====
-- What account/account.go answers when a view call of the engine fails.
use relayer2_public.Base.{
  ℕ, String, ◌≡◌, Bool, true, false, Option, List, arith, contains, if◌then◌else◌, err,
}
use relayer2_public.Base.Int.{ℤ}
use relayer2_public.Account.Reads.{
  reply, fail, generic, plain, Connections, Decoders, is_before, too_many_requests_error, view_from,
  get_balance, get_code, get_storage_at, get_transaction_count, balance_reply, code_reply,
  storage_reply, count_reply,
}

module _ {Q T S : Type 0} (d : Decoders Q T S) (c : Connections) (args : List ℕ) (bn : Option ℤ)
    (from_archival : Bool) (e : String) where
  -- A call that fails for a block from before the Aurora account or before the genesis block reads as
  -- an empty state: no balance, no code, no storage and no transactions.
  before_aurora_reads :
      is_before e ≡ true
      → view_from c from_archival "get_balance" args bn ≡ err e
      → view_from c from_archival "get_code" args bn ≡ err e
      → view_from c from_archival "get_storage_at" args bn ≡ err e
      → view_from c from_archival "get_nonce" args bn ≡ err e
      → (get_balance d c args bn from_archival ≡ reply 0)
        × (get_code d c args bn from_archival ≡ reply d.response_0x)
        × (get_storage_at d c args bn from_archival ≡ reply d.zero_str_uint256)
        × (get_transaction_count d c args bn from_archival ≡ reply 0)
  unfolding get_balance get_code get_storage_at get_transaction_count balance_reply code_reply
      storage_reply count_reply
  before_aurora_reads before balance code storage nonce =
      (rw (balance, before), rw (code, before), rw (storage, before), rw (nonce, before))

  -- Any other failure is an error of the call; only the count of transactions tells the 429 of a busy
  -- node by an error of its own.
  failed_reads :
      is_before e ≡ false
      → view_from c from_archival "get_balance" args bn ≡ err e
      → view_from c from_archival "get_code" args bn ≡ err e
      → view_from c from_archival "get_storage_at" args bn ≡ err e
      → view_from c from_archival "get_nonce" args bn ≡ err e
      → (get_balance d c args bn from_archival ≡ fail (generic e))
        × (get_code d c args bn from_archival ≡ fail (generic e))
        × (get_storage_at d c args bn from_archival ≡ fail (generic e))
        × (get_transaction_count d c args bn from_archival
            ≡ fail (
                if contains e too_many_requests_error
                then plain "engine error 429, too many requests received"
                else generic e))
  unfolding get_balance get_code get_storage_at get_transaction_count balance_reply code_reply
      storage_reply count_reply
  failed_reads before balance code storage nonce =
      (rw (balance, before), rw (code, before), rw (storage, before), ground (arith, nonce, before))
