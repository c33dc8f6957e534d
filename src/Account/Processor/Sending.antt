-- ===== src/Account/Processor/Sending.antt =====
-- The Near nonces of the transactions that `send` hands to the engine.
use relayer2_public.Base.{
  ℕ, String, suc, ◌+◌, ◌%◌, ◌<◌, ◌≤◌, ◌≡◌, false, Option, none, some, List, [], ◌∷◌, arith,
  same_text, length, if◌then◌else◌, u64_mod, ok, err, Outcome, Bool-cases, Option-cases, inl, inr,
  ◌⊎◌, Run, done, ◌>>=◌, deref, get_elem?, Keeps, Keeps-bind, Keeps-if, Keeps-any, ap, sym, ◌∙◌,
}
use text.Mathlib.TextEquality.{eq_iff}
use relayer2_public.Account.Request.{TxnReq, expired}
use relayer2_public.Account.Nonce.{
  NonceCache, Cache, lookup, insert, fresh_entry, Node, next_of, next_near_nonce,
}
use relayer2_public.Account.Nonce.Entries.{lookup-insert}
use relayer2_public.Account.Processor.{TxnProcessor, Clock, Sent, answered, called, send, send_as}
use relayer2_public.Account.Processor.Order.{IsConsecutive}

abbrev add_call : Sent → List (String × ℕ) → List (String × ℕ)
add_call (answered status) calls = calls
add_call (called key nonce) calls = (key, nonce) ∷ calls

-- The calls of the engine in a run of `send`.
unfoldable pub send_all :
    {Q : Type 0}
    → Node Q
    → List (Clock × TxnReq)
    → TxnProcessor
    → Run (TxnProcessor × List (String × ℕ))
send_all node [] tp = done (tp, [])
send_all node ((clock, req) ∷ rest) tp = do
  r ← send node clock req tp
  s ← send_all node rest r.0
  done (s.0, add_call r.1 s.1)

-- The nonces of the calls with one key.
abbrev pub near_nonces_of : String → List (String × ℕ) → List ℕ
near_nonces_of key [] = []
near_nonces_of key ((k, nonce) ∷ calls) =
    if same_text k key then nonce ∷ near_nonces_of key calls else near_nonces_of key calls

module _ {Q : Type 0} (node : Node Q) (key : String) where
  -- The nonce that was used last: the cached one, or the one that Near tells where none is cached.
  abbrev pub last_nonce : Option NonceCache → Outcome ℕ
  last_nonce none = node.view_nonce key
  last_nonce (some nc) = ok nc.nonce

  abbrev pub IsLast : ℕ → Cache → Type 0
  IsLast n c = last_nonce (lookup key c) ≡ ok n

  -- What a step has used of the nonces of the key.
  abbrev Carries : ℕ → Cache × Outcome ℕ → String → Type 0
  Carries n (c, err e) k = IsLast n c
  Carries n (c, ok m) k =
      IsLast (if same_text k key then suc n else n) c × ((same_text k key ≡ false) ⊎ (m ≡ suc n))

  stored-Carries :
      (n : ℕ) (k : String) (nc : NonceCache) (c : Cache)
      → IsLast n c
      → (same_text k key ≡ false) ⊎ (nc.nonce ≡ suc n)
      → Carries n (insert k nc c, ok nc.nonce) k
  stored-Carries n k nc c h own = elim (Bool-cases (same_text k key)) [
    | inl same ↦ ground (arith, lookup-insert k key nc c)
    | inr other ↦ ground (arith, lookup-insert k key nc c)
  ]

  counted : (n m : ℕ) → ok m ≡ ok n → suc n < u64_mod → (m + 1) % u64_mod ≡ suc n
  counted n m e fits = ground arith

  -- The answer of the node for a key that is not cached.
  fetched-Carries :
      (now n : ℕ) (k : String) (c : Cache) (reply : Outcome ℕ)
      → IsLast n c
      → suc n < u64_mod
      → (same_text k key ≡ false) ⊎ (reply ≡ ok n)
      → Carries n (next_of k now reply none c) k
  unfolding next_of
  fetched-Carries now n k c (err e) h fits own = h
  fetched-Carries now n k c (ok m) h fits own =
      stored-Carries n k (fresh_entry now ((m + 1) % u64_mod)) c h
        (elim own [ inl other ↦ inl other | inr same ↦ inr (counted n m same fits) ])

  -- For the key itself, what is used is the last nonce.
  own_last :
      (n : ℕ) (k : String) (c : Cache) (o : Option NonceCache)
      → IsLast n c
      → lookup k c ≡ o
      → (same_text k key ≡ false) ⊎ (last_nonce o ≡ ok n)
  own_last n k c o h e = elim (Bool-cases (same_text k key)) [
    | inl same ↦
        let at : k ≡ key = (eq_iff k key).0 same in
        inr (ap last_nonce (sym e ∙ ap (λ j. lookup j c) at) ∙ h)
    | inr other ↦ inl other
  ]

  own_reply :
      (n : ℕ) (k : String)
      → (same_text k key ≡ false) ⊎ (node.view_nonce key ≡ ok n)
      → (same_text k key ≡ false) ⊎ (node.view_nonce k ≡ ok n)
  own_reply n k h = elim (Bool-cases (same_text k key)) [
    | inl same ↦ elim h [
      | inl other ↦ inl other
      | inr e ↦ inr (ap node.view_nonce ((eq_iff k key).0 same) ∙ e)
    ]
    | inr other ↦ inl other
  ]

  next_near_nonce-Carries :
      (now n : ℕ) (k : String) (c : Cache)
      → IsLast n c
      → suc n < u64_mod
      → Carries n (next_near_nonce node now k c) k
  unfolding next_near_nonce next_of
  next_near_nonce-Carries now n k c h fits = elim (Option-cases (lookup k c)) [
    | inl missed ↦ rw missed (
        fetched-Carries now n k c (node.view_nonce k) h fits
          (own_reply n k (own_last n k c none h missed)))
    | inr (nc, hit) ↦ rw hit (
        stored-Carries n k (record nc { nonce = (nc.nonce + 1) % u64_mod }) c h
          (elim (own_last n k c (some nc) h hit) [
            | inl other ↦ inl other
            | inr same ↦ inr (counted n nc.nonce same fits)
          ]))
  ]

  -- The last nonce after a step, and what the step has used.
  abbrev advanced : ℕ → Sent → ℕ
  advanced n (answered status) = n
  advanced n (called k m) = if same_text k key then suc n else n

  abbrev Uses : ℕ → Sent → Type 0
  Uses n (answered status) = Unit
  Uses n (called k m) = (same_text k key ≡ false) ⊎ (m ≡ suc n)

  abbrev Leads : ℕ → TxnProcessor × Sent → Type 0
  Leads n r = IsLast (advanced n r.1) (r.0).near_nonce_cache × Uses n r.1

  advanced_le : (n : ℕ) (s : Sent) → advanced n s ≤ suc n
  advanced_le n (answered status) = omega arith
  advanced_le n (called k m) = ground arith

  add_call-IsConsecutive :
      (n : ℕ) (s : Sent) (calls : List (String × ℕ))
      → Uses n s
      → IsConsecutive (suc (advanced n s)) (near_nonces_of key calls)
      → IsConsecutive (suc n) (near_nonces_of key (add_call s calls))
  add_call-IsConsecutive n (answered status) calls h k = k
  add_call-IsConsecutive n (called j m) calls h k = ground (arith, h, k)

  send_as-Leads :
      (n : ℕ) (k : String) (r : Cache × Outcome ℕ) (tp : TxnProcessor)
      → Carries n r k
      → Leads n (send_as k r tp)
  unfolding send_as
  send_as-Leads n k (c, err e) tp h = (h, tt)
  send_as-Leads n k (c, ok m) tp h = h

  send-Leads :
      (clock : Clock) (req : TxnReq) (tp : TxnProcessor) (n : ℕ)
      → IsLast n tp.near_nonce_cache
      → suc n < u64_mod
      → Keeps (Leads n) (send node clock req tp)
  unfolding send
  send-Leads clock req tp n h fits =
      elim (Option-cases (get_elem? tp.circuit_breaker req.processor_index)) [
        | inl gone ↦ rw gone tt
        | inr (broken, there) ↦ rw there (
            Keeps-if (Leads n) broken (done _) _ (h, tt)
              (Keeps-if (Leads n) (expired clock.first req) (done _) _ (h, tt)
                (Keeps-bind (λ k. Unit) (Leads n) (deref (get_elem? tp.keys req.processor_index)) _
                  (Keeps-any _)
                  (λ k u.
                    send_as-Leads n k (next_near_nonce node clock.second_ k tp.near_nonce_cache) tp
                      (next_near_nonce-Carries clock.second_ n k tp.near_nonce_cache h fits)))))
      ]

  -- Whatever requests the workers of whatever keys send, while no evaluation updates the cache, the calls
  -- of the engine with one key have consecutive Near nonces, from the one after the last on, with none
  -- missing and none twice.
  pub send_all-IsConsecutive :
      (reqs : List (Clock × TxnReq)) (tp : TxnProcessor) (n : ℕ)
      → IsLast n tp.near_nonce_cache
      → n + length reqs < u64_mod
      → Keeps (λ r. IsConsecutive (suc n) (near_nonces_of key r.1)) (send_all node reqs tp)
  unfolding send_all
  send_all-IsConsecutive [] tp n h fits = tt
  send_all-IsConsecutive ((clock, req) ∷ rest) tp n h fits =
      Keeps-bind (Leads n) _ (send node clock req tp) _
        (send-Leads clock req tp n h (omega (arith, fits)))
        (λ r k.
          Keeps-bind _ _ (send_all node rest r.0) _
            (send_all-IsConsecutive rest r.0 (advanced n r.1) k.0
              (omega (arith, fits, advanced_le n r.1)))
            (λ q j. add_call-IsConsecutive n r.1 q.1 k.1 j))
