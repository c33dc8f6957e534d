-- ===== src/Account/Processor/Traffic/Ends.antt =====
-- Each transaction that was submitted is answered in the end.
use relayer2_public.Base.{
  ℕ, String, ◌≤◌, ◌≡◌, refl, Option, List, [], ◌∷◌, arith, length, All, Run, done, panic, blocked,
  Returns, Returns-mono, Survives, Survives-mono, Survives-Keeps, Keeps,
}
use relayer2_public.Account.Value.{Value}
use relayer2_public.Account.Queue.{TxnQ}
use relayer2_public.Account.Request.{TxnReq, respond}
use relayer2_public.Account.Nonce.{Node}
use relayer2_public.Account.Processor.{Clock, new_txn_processor}
use relayer2_public.Account.Processor.Traffic.{Traffic, Moment, run}
use relayer2_public.Account.Processor.Traffic.Tally.{
  is_of, total, tally_queues, tally_with, under_way, holds,
}
use relayer2_public.Account.Processor.Traffic.Conserved.{submitted, run-holds}
use relayer2_public.Account.Processor.Traffic.Rounds.{IsReadable}
use relayer2_public.Account.Processor.Traffic.Safety.{IsSteady, IsSound}
use relayer2_public.Account.Processor.Traffic.Late.{early, one, steps_left}
use relayer2_public.Account.Processor.Traffic.Progress.{IsLate}
use relayer2_public.Account.Processor.Traffic.Drain.{drain, submitted_late}
use relayer2_public.Account.Processor.Traffic.Lifecycle.{begun, begun-holds, run-IsConserved}

-- Both what code returns with and what each of its values has.
Returns-Keeps {ℓ} :
    {A : Type ℓ} (P Q : A → Type 0) (m : Run A)
    → Returns P m
    → Keeps Q m
    → Returns (λ a. P a × Q a) m
Returns-Keeps P Q (done a) h k = (h, k)
Returns-Keeps P Q panic h k = h
Returns-Keeps P Q blocked h k = h

is_of_le : (hash : String) (req : TxnReq) → is_of hash req ≤ 1
is_of_le hash req = ground arith

total_le {ℓ} :
    {A : Type ℓ} (v w : A → ℕ) (xs : List A) → ((x : A) → v x ≤ w x) → total v xs ≤ total w xs
total_le v w [] h = omega arith
total_le v w (x ∷ xs) h = omega (arith, h x, total_le v w xs h)

tally_queues_le :
    (v w : TxnReq → ℕ) (qs : List (TxnQ TxnReq))
    → ((req : TxnReq) → v req ≤ w req)
    → tally_queues v qs ≤ tally_queues w qs
tally_queues_le v w [] h = omega arith
tally_queues_le v w (q ∷ qs) h = omega (arith, total_le v w q.items h, tally_queues_le v w qs h)

under_way_le : (hash : String) (t : Traffic) → under_way (is_of hash) t ≤ under_way one t
under_way_le hash t =
    let h : (req : TxnReq) → is_of hash req ≤ one req = is_of_le hash in
    omega (
      arith,
      tally_queues_le (is_of hash) one (t.processor).unordered h,
      tally_queues_le (is_of hash) one (t.processor).ordered h,
      total_le (is_of hash) one t.timers h,
      total_le (is_of hash) one t.calls h,
      total_le (λ p. is_of hash p.0) (λ p. one p.0) t.answers (λ p. h p.0),
    )

-- So many later events lead to where nothing is under way, and the transaction is answered so often.
abbrev pub IsAnsweredAfter : Type 0 → String → ℕ → ℕ → Traffic → Type 0
IsAnsweredAfter Q hash late count t =
    (later : List (Moment Q)) × All (λ m. IsLate late m.1) later
    × (length later ≤ steps_left t)
    × Returns (λ t'. (under_way one t' ≡ 0) × (tally_with (is_of hash) t'.finished ≡ count))
        (run later t)

module _ {Q : Type 0} (node : Node Q) (mapper : String) (price limit : ℕ) (keys : List String)
    (events : List (Moment Q)) (sound : All (λ m. IsSound (length keys) m.1) events) (hash : String)
    (late : ℕ) (expired_ : submitted (early late) events ≡ 0) (clock : Clock)
    (after : late ≤ clock.first) (value : Value) (error : Option String)
    (readable : (req : TxnReq) → IsReadable req (respond clock.first value error)) where
  abbrev begins : Traffic
  begins = begun (new_txn_processor mapper price limit keys)

  run_over-IsSteady :
      Survives
        (λ t.
          IsSteady (length keys) t
          × (holds (is_of hash) t ≡ submitted (is_of hash) events)
          × (holds (early late) t ≡ 0))
        (run events begins)
  run_over-IsSteady =
      Survives-Keeps _ _ _ (run events begins)
        (run-IsConserved mapper price limit keys events sound hash)
        (run-holds (early late) (λ req. refl) events begins)
        (λ t h k.
          (h.0, h.1, omega (arith, k, expired_, begun-holds mapper price limit keys (early late))))

  drained :
      (t : Traffic)
      → IsSteady (length keys) t
      → holds (is_of hash) t ≡ submitted (is_of hash) events
      → holds (early late) t ≡ 0
      → IsAnsweredAfter Q hash late (submitted (is_of hash) events) t
  drained t steady h over =
      let (later, ls, ss, len, empties) =
        drain node (length keys) late clock after value error readable (steps_left t) t steady over
          (omega arith) in
      let m = run later t in
      (
        later,
        ls,
        len,
        Returns-mono _ _ m
            (Returns-Keeps _ _ m empties (run-holds (is_of hash) (λ req. refl) later t))
            (λ t' k. (
              k.0,
              omega (arith, k, h, under_way_le hash t', submitted_late (is_of hash) late later ls),
            )),
      )

  -- Let requests be submitted to a new processor for keys that it has, let its workers, timers,
  -- calls of the engine and waiting goroutines take their steps in any order, let the Near node
  -- answer each of them as it will, let each reply of
  -- the engine be one that can be evaluated, let all that was submitted have expired at a later
  -- time, and let the engine still reply. Then nothing has panicked, and from wherever the run
  -- has come to, some further steps, no more than are left, each after that time and none of
  -- which submits anything, lead to where no request is under way in any place; there the
  -- transaction with any one hash has been answered as often as it was submitted.
  pub run-IsAnsweredAfter :
      Survives (IsAnsweredAfter Q hash late (submitted (is_of hash) events)) (run events begins)
  run-IsAnsweredAfter =
      Survives-mono _ _ (run events begins) run_over-IsSteady (λ t h. drained t h.0 h.1 h.2)
