-- ===== src/Account/Processor/Traffic/Tally.antt =====
-- How many of the requests under way are those of one transaction.
use relayer2_public.Base.{
  ℕ, String, zero, suc, ◌+◌, ◌≡◌, refl, Option, none, some, List, [], ◌∷◌, ◌++◌, arith, get_elem?,
  set, same_text, if◌then◌else◌, Keeps,
}
use relayer2_public.Account.Queue.{TxnQ, enqueue, try_enqueue}
use relayer2_public.Account.Request.{TxnReq}
use relayer2_public.Account.Processor.Traffic.{Traffic, take_out}

-- Whether a request is one for the transaction with the hash.
abbrev pub is_of : String → TxnReq → ℕ
is_of hash req = if same_text req.hash hash then 1 else 0

abbrev pub total {ℓ} : {A : Type ℓ} → (A → ℕ) → List A → ℕ
total weight [] = 0
total weight (x ∷ xs) = weight x + total weight xs

abbrev pub tally : (TxnReq → ℕ) → List TxnReq → ℕ
tally weight = total weight

abbrev pub tally_with {ℓ} : {A : Type ℓ} → (TxnReq → ℕ) → List (TxnReq × A) → ℕ
tally_with weight = total (λ p. weight p.0)

abbrev pub tally_queues : (TxnReq → ℕ) → List (TxnQ TxnReq) → ℕ
tally_queues weight [] = 0
tally_queues weight (q ∷ qs) = tally weight q.items + tally_queues weight qs

-- The requests for the transaction that are under way, in all their places.
abbrev pub under_way : (TxnReq → ℕ) → Traffic → ℕ
under_way weight t =
    tally_queues weight (t.processor).unordered
    + tally_queues weight (t.processor).ordered
    + tally weight t.timers
    + tally weight t.calls
    + tally_with weight t.answers

-- Those that are under way or finished.
abbrev pub holds : (TxnReq → ℕ) → Traffic → ℕ
holds weight t = under_way weight t + tally_with weight t.finished

total-append {ℓ} :
    {A : Type ℓ} (weight : A → ℕ) (xs ys : List A)
    → total weight (xs ++ ys) ≡ total weight xs + total weight ys
total-append weight [] ys = omega arith
total-append weight (x ∷ xs) ys = omega (arith, total-append weight xs ys)

-- A list weighs as much as the element that is taken out and the others.
abbrev pub IsTaken {ℓ} : {A : Type ℓ} → (A → ℕ) → List A → Option (A × List A) → Type 0
IsTaken weight xs none = Unit
IsTaken weight xs (some p) = total weight xs ≡ weight p.0 + total weight p.1

take_out-next {ℓ} :
    {A : Type ℓ} (weight : A → ℕ) (x : A) (xs : List A) (o : Option (A × List A))
    → IsTaken weight xs o
    → IsTaken weight (x ∷ xs) (elim o [ none ↦ none | some p ↦ some (p.0, x ∷ p.1) ])
take_out-next weight x xs none h = tt
take_out-next weight x xs (some p) h = omega (arith, h)

pub take_out-IsTaken {ℓ} :
    {A : Type ℓ} (weight : A → ℕ) (k : ℕ) (xs : List A) → IsTaken weight xs (take_out k xs)
take_out-IsTaken weight k [] = tt
take_out-IsTaken weight zero (x ∷ xs) = refl
take_out-IsTaken weight (suc k) (x ∷ xs) =
    take_out-next weight x xs (take_out k xs) (take_out-IsTaken weight k xs)

module _ (weight : TxnReq → ℕ) where
  pub tally_queues-set :
      (qs : List (TxnQ TxnReq)) (i : ℕ) (q q' : TxnQ TxnReq)
      → get_elem? qs i ≡ some q
      → tally_queues weight (set qs i q') + tally weight q.items
        ≡ tally_queues weight qs + tally weight q'.items
  tally_queues-set [] i q q' e = cc
  tally_queues-set (p ∷ qs) zero q q' e = let e' : p ≡ q = cc in rw e' (omega arith)
  tally_queues-set (p ∷ qs) (suc i) q q' e = omega (arith, tally_queues-set qs i q q' e)

  pub enqueue-tally :
      (req : TxnReq) (q : TxnQ TxnReq)
      → Keeps (λ q'. tally weight q'.items ≡ tally weight q.items + weight req) (enqueue req q)
  unfolding enqueue
  enqueue-tally req q = ground (arith, total-append weight q.items (req ∷ []))

  pub try_enqueue-tally :
      (req : TxnReq) (q : TxnQ TxnReq)
      → Keeps
          (λ r. tally weight (r.0).items ≡ tally weight q.items + (if r.1 then weight req else 0))
          (try_enqueue req q)
  unfolding try_enqueue
  try_enqueue-tally req q = ground (arith, total-append weight q.items (req ∷ []))
