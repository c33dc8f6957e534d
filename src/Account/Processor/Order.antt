-- ===== src/Account/Processor/Order.antt =====
-- The order in which `sort` lets the transactions of a sender through.
use relayer2_public.Base.{
  ℕ, String, suc, ◌+◌, ◌%◌, ◌<◌, ◌≡◌, ◌≢◌, Bool, true, false, Option, some, List, [], ◌∷◌, arith,
  same_text, length, All, if◌then◌else◌, u64_mod, err, Bool-cases, inl, inr, ◌⊎◌, Run, done, ◌>>=◌,
  Keeps, Keeps-bind, Keeps-mono,
}
use text.Mathlib.TextEquality.{eq_iff}
use relayer2_public.Account.Request.{TxnReq}
use relayer2_public.Account.Nonce.{NonceCache, lookup, Node, get_nonce}
use relayer2_public.Account.Nonce.Entries.{
  lookup-insert_self, lookup-insert_ne, update_eth_nonce_cache_others,
  update_eth_nonce_cache_silent,
}
use relayer2_public.Account.Processor.{TxnProcessor, Clock, Sorted, queued, sort}

-- The nonce that the processor expects next of a sender.
abbrev pub expected : String → TxnProcessor → Option NonceCache
expected s tp = lookup s tp.eth_nonce_cache

abbrev pub is_queued : Sorted → Bool
is_queued queued = true
is_queued _ = false

-- The requests of a run of `sort` that went into an ordered queue.
unfoldable pub sort_all :
    {Q : Type 0} → Node Q → List (Clock × TxnReq) → TxnProcessor → Run (TxnProcessor × List TxnReq)
sort_all node [] tp = done (tp, [])
sort_all node ((clock, req) ∷ rest) tp = do
  r ← sort node clock req tp
  s ← sort_all node rest r.0
  done (s.0, if is_queued r.1 then req ∷ s.1 else s.1)

-- The nonces of the requests of one sender.
abbrev pub nonces_of : String → List TxnReq → List ℕ
nonces_of s [] = []
nonces_of s (req ∷ reqs) =
    if same_text req.sender.hex s then req.nonce ∷ nonces_of s reqs else nonces_of s reqs

-- n, n + 1, n + 2, …
abbrev pub IsConsecutive : ℕ → List ℕ → Type 0
IsConsecutive n [] = Unit
IsConsecutive n (m ∷ ms) = (m ≡ n) × IsConsecutive (suc n) ms

module _ {Q : Type 0} (node : Node Q) where
  step_own :
      (clock : Clock) (req : TxnReq) (tp : TxnProcessor) (nc : NonceCache) (x : String)
      → req.retransmit ≡ false
      → get_nonce node req.sender ≡ err x
      → expected req.sender.hex tp ≡ some nc
      → suc nc.nonce < u64_mod
      → Keeps
          (λ r.
            (expected req.sender.hex r.0
              ≡ some (record nc { nonce = if is_queued r.1 then suc nc.nonce else nc.nonce }))
            × ((is_queued r.1 ≡ false) ⊎ (req.nonce ≡ nc.nonce)))
          (sort node clock req tp)
  unfolding sort
  step_own clock req tp nc x fresh silent known fits = ground (
    arith,
    lookup-insert_self req.sender.hex (record nc { nonce = (nc.nonce + 1) % u64_mod })
        tp.eth_nonce_cache,
    update_eth_nonce_cache_silent node clock.second_ clock.third req.sender tp.eth_nonce_cache nc x
        known silent,
  )

  step_other :
      (clock : Clock) (req : TxnReq) (tp : TxnProcessor) (s : String)
      → req.sender.hex ≢ s
      → Keeps (λ r. expected s r.0 ≡ expected s tp) (sort node clock req tp)
  unfolding sort
  step_other clock req tp s ne = grind (arith, lookup-insert_ne, update_eth_nonce_cache_others)

  -- A first transmission, of whose sender the node does not tell the nonce.
  abbrev pub IsPlain : Clock × TxnReq → Type 0
  IsPlain (clock, req) =
      (req.retransmit ≡ false) × (x : String) × (get_nonce node req.sender ≡ err x)

  -- One more request in front of a run.
  abbrev Carries : String → NonceCache → TxnReq → TxnProcessor × Sorted → Type 0
  Carries s nc req r =
      (expected s r.0
        ≡ some (record nc {
          nonce =
              if same_text req.sender.hex s
              then (if is_queued r.1 then suc nc.nonce else nc.nonce)
              else nc.nonce;
        }))
      × ((same_text req.sender.hex s ≡ false) ⊎ (is_queued r.1 ≡ false) ⊎ (req.nonce ≡ nc.nonce))

  step_Carries :
      (s : String) (clock : Clock) (req : TxnReq) (tp : TxnProcessor) (nc : NonceCache)
      → IsPlain (clock, req)
      → expected s tp ≡ some nc
      → suc nc.nonce < u64_mod
      → Keeps (Carries s nc req) (sort node clock req tp)
  step_Carries s clock req tp nc plain known fits = elim (Bool-cases (same_text req.sender.hex s)) [
    | inl own ↦
        let e : req.sender.hex ≡ s = (eq_iff _ _).0 own in
        Keeps-mono _ (Carries s nc req) (sort node clock req tp)
          (step_own clock req tp nc plain.1 plain.0 plain.2 (rw e known) fits) λ r h. ground arith
    | inr other ↦
        Keeps-mono _ (Carries s nc req) (sort node clock req tp)
          (step_other clock req tp s (ground (arith, eq_iff req.sender.hex s))) λ r h. ground arith
  ]

  -- Whatever requests are sorted, if none is a retransmission and the node tells no nonce, those of a
  -- known sender go into the ordered queue in the order of their nonces, from the expected one on,
  -- with none missing and none twice.
  pub sort_all-IsConsecutive :
      (s : String) (reqs : List (Clock × TxnReq)) (tp : TxnProcessor) (nc : NonceCache)
      → All IsPlain reqs
      → expected s tp ≡ some nc
      → nc.nonce + length reqs < u64_mod
      → Keeps (λ r. IsConsecutive nc.nonce (nonces_of s r.1)) (sort_all node reqs tp)
  unfolding sort_all
  sort_all-IsConsecutive s [] tp nc plain known fits = tt
  sort_all-IsConsecutive s ((clock, req) ∷ rest) tp nc plain known fits =
      Keeps-bind (Carries s nc req) _ (sort node clock req tp) _
        (step_Carries s clock req tp nc plain.0 known (omega arith))
        λ r h.
          Keeps-bind _ _ (sort_all node rest r.0) _
            (sort_all-IsConsecutive s rest r.0 _ plain.1 h.0 (ground arith)) λ q k. ground arith
