-- ===== src/Account/Processor/Traffic/Drain.antt =====
-- The end of all that is under way, once every request has expired.
use relayer2_public.Base.{
  ℕ, String, zero, suc, ◌≤◌, ◌<◌, ◌≡◌, refl, true, false, Option, is_some, List, [], ◌∷◌, arith,
  length, get_elem?, All, Run, done, Returns, Returns-mono, ◌∙◌, panic, blocked, inl, inr, ◌⊎◌,
}
use mathlib.Core.Path.{subst}
use relayer2_public.Account.Value.{Value}
use relayer2_public.Account.Queue.{TxnQ, worker_round}
use relayer2_public.Account.Request.{TxnReq, respond}
use relayer2_public.Account.Nonce.{Node}
use relayer2_public.Account.Processor.{Clock}
use relayer2_public.Account.Processor.Traffic.{
  Traffic, Event, Moment, submits, sorts, elapses, sends, replies, evaluates, take_out, perform,
  run,
}
use relayer2_public.Account.Processor.Traffic.Tally.{tally, total, tally_queues, under_way, holds}
use relayer2_public.Account.Processor.Traffic.Conserved.{adds, submitted, perform-holds}
use relayer2_public.Account.Processor.Traffic.Rounds.{IsReadable}
use relayer2_public.Account.Processor.Traffic.Safety.{IsSteady, IsSound}
use relayer2_public.Account.Processor.Traffic.Late.{early, one, steps_left, Keeps-both}
use relayer2_public.Account.Processor.Traffic.Flows.{Flows-Returns}
use relayer2_public.Account.Processor.Traffic.Waits.{perform-Flows}
use relayer2_public.Account.Processor.Traffic.Progress.{
  IsLate, FallsIf, is_works, works_at, acts, perform-Falls,
}
use relayer2_public.Account.Processor.Traffic.Lifecycle.{perform-IsSteady}

-- A list of requests is empty, or one can be taken out of it.
taken_or_none {ℓ} :
    {A : Type ℓ} (weight : A → ℕ) (xs : List A)
    → (total weight xs ≡ 0) ⊎ (is_some (take_out 0 xs) ≡ true)
taken_or_none weight [] = inl refl
taken_or_none weight (x ∷ xs) = inr refl

-- A worker that is not stopped works if its queue has a request.
works_or_empty :
    (items : List TxnReq) (q : TxnQ TxnReq)
    → (tally one items ≡ 0) ⊎ (is_works (worker_round false (record q { items = items })) ≡ true)
unfolding worker_round
works_or_empty [] q = inl refl
works_or_empty (req ∷ items) q = inr (ground arith)

works_or_none :
    (qs : List (TxnQ TxnReq))
    → (tally_queues one qs ≡ 0)
      ⊎ ((i : ℕ) × (i < length qs) × (works_at false (get_elem? qs i) ≡ true))
works_or_none [] = inl refl
works_or_none (q ∷ qs) = elim (works_or_empty q.items q) [
  | inr e ↦ inr (0, omega arith, e)
  | inl none_ ↦ elim (works_or_none qs) [
    | inl e ↦ inl (omega (arith, none_, e))
    | inr (i, h, e) ↦ inr (suc i, omega (arith, h), e)
  ]
]

-- The value in which code returns.
returned {ℓ} :
    {A : Type ℓ} (P : A → Type 0) (m : Run A) → Returns P m → (a : A) × (m ≡ done a) × P a
returned P (done a) h = (a, refl, h)
returned P panic h = elim h [ ]
returned P blocked h = elim h [ ]

pub adds_late : (weight : TxnReq → ℕ) (late n : ℕ) (a : Event) → IsLate late a → adds weight a n ≡ n
adds_late weight late n (submits req) h = elim h [ ]
adds_late weight late n (sorts prefer_cancel clock now i) h = refl
adds_late weight late n (elapses now k) h = refl
adds_late weight late n (sends prefer_cancel clock now i) h = refl
adds_late weight late n (replies now k value error) h = refl
adds_late weight late n (evaluates k clock) h = refl

pub submitted_late :
    {Q : Type 0} (weight : TxnReq → ℕ) (late : ℕ) (moments : List (Moment Q))
    → All (λ m. IsLate late m.1) moments
    → submitted weight moments ≡ 0
submitted_late weight late [] h = refl
submitted_late weight late ((node, a) ∷ moments) (h, hs) =
    adds_late weight late (submitted weight moments) a h ∙ submitted_late weight late moments hs

-- A clock after that time, and what the engine replies, which can be evaluated.
module _ {Q : Type 0} (node : Node Q) (n late : ℕ) (clock : Clock) (after : late ≤ clock.first)
    (value : Value) (error : Option String)
    (readable : (req : TxnReq) → IsReadable req (respond clock.first value error)) where
  -- Nothing is under way, or an event finds a request to deal with.
  next :
      (t : Traffic)
      → IsSteady n t
      → (under_way one t ≡ 0) ⊎ ((a : Event) × IsLate late a × IsSound n a × (acts a t ≡ true))
  next t ((u, o, b, us, os), k, ts, cs, as_, fs) = elim (works_or_none (t.processor).unordered) [
    | inr (i, l, e) ↦ inr (sorts false clock clock.first i, after, omega (arith, u, k, l), e)
    | inl e1 ↦ elim (works_or_none (t.processor).ordered) [
      | inr (i, l, e) ↦ inr (sends false clock clock.first i, after, omega (arith, o, k, l), e)
      | inl e2 ↦ elim (taken_or_none one t.timers) [
        | inr e ↦ inr (elapses clock.first 0, tt, tt, e)
        | inl e3 ↦ elim (taken_or_none one t.calls) [
          | inr e ↦ inr (replies clock.first 0 value error, tt, readable, e)
          | inl e4 ↦ elim (taken_or_none (λ p. one p.0) t.answers) [
            | inr e ↦ inr (evaluates 0 clock, tt, tt, e)
            | inl e5 ↦ inl (omega (arith, e1, e2, e3, e4, e5))
          ]
        ]
      ]
    ]
  ]

  -- Such an event is performed, and leaves fewer steps.
  acts-Returns :
      (t : Traffic) (a : Event)
      → IsSteady n t
      → holds (early late) t ≡ 0
      → IsLate late a
      → IsSound n a
      → acts a t ≡ true
      → Returns
          (λ t'. IsSteady n t' × (steps_left t' < steps_left t) × (holds (early late) t' ≡ 0))
          (perform node a t)
  acts-Returns t a steady over h sound e =
      let m = perform node a t in
      Returns-mono _ _ m
        (Flows-Returns _ _ m (perform-Flows node t n late a over steady h)
          (perform-IsSteady node n a t steady sound)
          (Keeps-both _ _ m (perform-Falls node late t over a h)
            (perform-holds (early late) (λ req. refl) node a t)))
        (λ t' k. (
          k.0,
          subst (λ b. FallsIf b t t') e (k.1).0,
          (k.1).1 ∙ adds_late (early late) late (holds (early late) t) a h ∙ over,
        ))

  -- So many events are enough after which nothing is under way.
  abbrev pub IsDrained : ℕ → Traffic → Type 0
  IsDrained fuel t =
      (later : List (Moment Q)) × All (λ m. IsLate late m.1) later
      × All (λ m. IsSound n m.1) later
      × (length later ≤ fuel)
      × Returns (λ t'. under_way one t' ≡ 0) (run later t)

  abbrev Drains : ℕ → Type 0
  Drains fuel =
      (t : Traffic)
      → IsSteady n t
      → holds (early late) t ≡ 0
      → steps_left t ≤ fuel
      → IsDrained fuel t

  stop : (fuel : ℕ) (t : Traffic) → under_way one t ≡ 0 → IsDrained fuel t
  unfolding run
  stop fuel t e = ([], tt, tt, omega arith, e)

  go_on :
      (fuel : ℕ) (t t' : Traffic) (a : Event)
      → IsLate late a
      → IsSound n a
      → perform node a t ≡ done t'
      → IsDrained fuel t'
      → IsDrained (suc fuel) t
  unfolding run
  go_on fuel t t' a h sound e (later, ls, ss, len, empties) =
      ((node, a) ∷ later, (h, ls), (sound, ss), omega (arith, len), rw e empties)

  pub drain : (fuel : ℕ) → Drains fuel
  drain zero t steady over enough = elim (next t steady) [
    | inl e ↦ stop 0 t e
    | inr (a, h, sound, e) ↦
        let (t', _, (_, less, _)) =
          returned _ (perform node a t) (acts-Returns t a steady over h sound e) in
        let none_ : ⊥ = omega (arith, less, enough) in elim none_ [ ]
  ]
  drain (suc fuel) t steady over enough = elim (next t steady) [
    | inl e ↦ stop (suc fuel) t e
    | inr (a, h, sound, e) ↦
        let (t', performed, (still, less, over')) =
          returned _ (perform node a t) (acts-Returns t a steady over h sound e) in
        go_on fuel t t' a h sound performed
          (drain fuel t' still over' (omega (arith, less, enough)))
  ]
