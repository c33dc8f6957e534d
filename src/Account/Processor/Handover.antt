-- ===== src/Account/Processor/Handover.antt =====
-- The nonces of a sender in the ordered queue of its key, from which `send` takes the transactions.
use relayer2_public.Base.{
  Survives-Keeps, ℕ, String, ◌<◌, ◌+◌, ◌≡◌, refl, sym, ap, ◌∙◌, Bool, true, false, some, List, [],
  ◌∷◌, ◌++◌, arith, length, All, same_text, u64_mod, if◌then◌else◌, Survives, Keeps, Keeps-bind,
  Keeps-any, Bool-cases, inl, inr,
}
use mathlib.Core.Path.{subst}
use relayer2_public.Account.Request.{TxnReq}
use relayer2_public.Account.Nonce.{NonceCache, Node}
use relayer2_public.Account.Processor.{TxnProcessor, Clock, sort}
use relayer2_public.Account.Processor.Liveness.{IsLive}
use relayer2_public.Account.Processor.Order.{
  is_queued, sort_all, nonces_of, expected, IsConsecutive, IsPlain, sort_all-IsConsecutive,
}
use relayer2_public.Account.Processor.Lanes.{lane, for_key, AreInside, sort_all-lane}

module _ (s : String) (i : ℕ) where
  -- The sender has its requests at one key.
  abbrev pub IsAt : TxnReq → Type 0
  IsAt req = same_text req.sender.hex s ≡ true → req.processor_index ≡ i

  nonces_of-append :
      (before reqs : List TxnReq)
      → nonces_of s (before ++ reqs) ≡ nonces_of s before ++ nonces_of s reqs
  nonces_of-append [] reqs = refl
  nonces_of-append (req ∷ before) reqs = ground (arith, nonces_of-append before reqs)

  nonces_of-for_key :
      (reqs : List TxnReq) → All IsAt reqs → nonces_of s (for_key i reqs) ≡ nonces_of s reqs
  nonces_of-for_key [] h = refl
  nonces_of-for_key (req ∷ reqs) (h, hs) = elim (Bool-cases (same_text req.sender.hex s)) [
    | inl own ↦ ground (arith, own, h own, nonces_of-for_key reqs hs)
    | inr other ↦ ground (arith, other, nonces_of-for_key reqs hs)
  ]

  All-IsAt :
      (b : Bool) (req : TxnReq) (reqs : List TxnReq)
      → IsAt req
      → All IsAt reqs
      → All IsAt (if b then req ∷ reqs else reqs)
  All-IsAt true req reqs h hs = (h, hs)
  All-IsAt false req reqs h hs = hs

  sort_all-IsAt :
      {Q : Type 0} (node : Node Q) (reqs : List (Clock × TxnReq)) (tp : TxnProcessor)
      → All (λ a. IsAt a.1) reqs
      → Keeps (λ r. All IsAt r.1) (sort_all node reqs tp)
  unfolding sort_all
  sort_all-IsAt node [] tp h = tt
  sort_all-IsAt node ((clock, req) ∷ rest) tp (h, hs) =
      Keeps-bind (λ r. Unit) _ (sort node clock req tp) _ (Keeps-any (sort node clock req tp))
        (λ r u.
          Keeps-bind (λ q. All IsAt q.1) _ (sort_all node rest r.0) _
            (sort_all-IsAt node rest r.0 hs) (λ q k. All-IsAt (is_queued r.1) req q.1 h k))

  -- In a live processor, let requests be sorted whose keys exist, none a retransmission, the node
  -- telling no nonce. Then nothing panics, and of a known sender whose requests all go to one key, and
  -- none of whose waits there yet, the ordered queue of that key holds consecutive nonces from the
  -- expected one on, the first at the front.
  pub sort_all-IsOrdered :
      {Q : Type 0} (node : Node Q) (reqs : List (Clock × TxnReq)) (tp : TxnProcessor)
      (nc : NonceCache)
      → IsLive tp
      → AreInside tp reqs
      → All (λ a. IsAt a.1) reqs
      → nonces_of s (lane i tp) ≡ []
      → All (IsPlain node) reqs
      → expected s tp ≡ some nc
      → nc.nonce + length reqs < u64_mod
      → Survives (λ r. IsConsecutive nc.nonce (nonces_of s (lane i r.0))) (sort_all node reqs tp)
  sort_all-IsOrdered node reqs tp nc live inside here empty plain known fits =
      Survives-Keeps _ _ _ (sort_all node reqs tp)
        (Survives-Keeps _ _ (λ r. nonces_of s (lane i r.0) ≡ nonces_of s r.1)
          (sort_all node reqs tp) (sort_all-lane node i reqs tp live inside)
          (sort_all-IsAt node reqs tp here)
          (λ r h k.
            ap (nonces_of s) h.1
            ∙ nonces_of-append (lane i tp) (for_key i r.1)
            ∙ ap (λ l. l ++ nonces_of s (for_key i r.1)) empty
            ∙ nonces_of-for_key r.1 k))
        (sort_all-IsConsecutive node s reqs tp nc plain known fits)
        (λ r e c. subst (IsConsecutive nc.nonce) (sym e) c)
