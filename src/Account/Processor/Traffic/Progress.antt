-- ===== src/Account/Processor/Traffic/Progress.antt =====
-- Each step on expired requests brings all of them nearer to their answers.
use relayer2_public.Base.{
  ℕ, String, ◌+◌, ◌≤◌, ◌<◌, ◌≡◌, refl, ap, Bool, true, false, Option, none, some, is_some, List,
  arith, get_elem?, set, ◌>>=◌, deref, Keeps, Keeps-bind, inl, inr, ◌⊎◌,
}
use relayer2_public.Account.Value.{Value}
use relayer2_public.Account.Queue.{TxnQ, Round, waits, ends, works, worker_round}
use relayer2_public.Account.Request.{TxnReq, Response, TxnResp, respond_with_status, respond}
use relayer2_public.Account.Nonce.{Node}
use relayer2_public.Account.Processor.{
  TxnProcessor, Clock, Sorted, queued, delayed, responded, Sent, answered, called, requeue, send,
}
use relayer2_public.Account.Processor.Eval.{submit_round}
use relayer2_public.Account.Processor.Traffic.{
  Traffic, Event, submits, sorts, elapses, sends, replies, evaluates, take_out, after_sort,
  after_send, after_round, new_txn_resp, sort_received, send_received, timer_elapsed, call_replied,
  answer_taken, perform,
}
use relayer2_public.Account.Processor.Traffic.Tally.{
  tally, total, tally_queues, tally_queues-set, holds, IsTaken, take_out-IsTaken,
}
use relayer2_public.Account.Processor.Traffic.Moves.{
  IsReceived, worker_round-IsReceived, Sorts, requeue-Sorts, GainsIf, is_waiting,
  submit_round-GainsIf,
}
use relayer2_public.Account.Processor.Traffic.Late.{
  early, one, steps_of-le, steps_of_answer, steps_left, tally-le, sort_late, IsNotDelayed,
  requeue_same, Keeps-both, IsAnswered, send_late, submit_round-ordered, submit_round-steps_of,
}

-- An event after that time, that submits nothing.
abbrev pub IsLate : ℕ → Event → Type 0
IsLate late (submits req) = ⊥
IsLate late (sorts prefer_cancel clock now i) = late ≤ clock.first
IsLate late (elapses now k) = Unit
IsLate late (sends prefer_cancel clock now i) = late ≤ clock.first
IsLate late (replies now k value error) = Unit
IsLate late (evaluates k clock) = Unit

-- A step that brings the end nearer if it does something.
abbrev pub FallsIf : Bool → Traffic → Traffic → Type 0
FallsIf true t t' = steps_left t' < steps_left t
FallsIf false t t' = t' ≡ t

abbrev pub is_works : Round TxnReq → Bool
is_works waits = false
is_works ends = false
is_works (works req q stop) = true

abbrev pub works_at : Bool → Option (TxnQ TxnReq) → Bool
works_at prefer_cancel none = false
works_at prefer_cancel (some q) = is_works (worker_round prefer_cancel q)

-- Whether the event finds a request to deal with.
abbrev pub acts : Event → Traffic → Bool
acts (submits req) t = true
acts (sorts prefer_cancel clock now i) t =
    works_at prefer_cancel (get_elem? (t.processor).unordered i)
acts (elapses now k) t = is_some (take_out k t.timers)
acts (sends prefer_cancel clock now i) t =
    works_at prefer_cancel (get_elem? (t.processor).ordered i)
acts (replies now k value error) t = is_some (take_out k t.calls)
acts (evaluates k clock) t = is_some (take_out k t.answers)

module _ {Q : Type 0} (node : Node Q) (late : ℕ) (t : Traffic)
    (over : holds (early late) t ≡ 0) where
  sort_received-Falls :
      (clock : Clock) (now i : ℕ) (q : TxnQ TxnReq) (r : Round TxnReq)
      → late ≤ clock.first
      → get_elem? (t.processor).unordered i ≡ some q
      → IsReceived (early late) (tally (early late) q.items) r
      → IsReceived one (tally one q.items) r
      → Keeps (FallsIf (is_works r) t) (sort_received node clock now i r t)
  unfolding sort_received respond_with_status
  sort_received-Falls clock now i q waits after found e o = refl
  sort_received-Falls clock now i q ends after found e o = refl
  sort_received-Falls clock now i q (works req q' stop) after found e o =
      rw
        (sort_late node late clock after req
          (omega (arith, e, over, tally-le (early late) (t.processor).unordered i q found))
          (record (t.processor) { unordered = set (t.processor).unordered i q' }))
        ((omega (arith, o, tally_queues-set one (t.processor).unordered i q q' found)))

  after_send-Falls :
      (now : ℕ) (req : TxnReq) (s : Sent) (t' : Traffic)
      → IsAnswered s
      → steps_left t' + 4 ≡ steps_left t
      → FallsIf true t (after_send now req s t')
  unfolding after_send
  after_send-Falls now req (answered status) t' h e =
      (omega (
        arith,
        e,
        steps_of-le (respond_with_status now status).status (respond_with_status now status).err,
      ))
  after_send-Falls now req (called key nonce) t' h e = elim h [ ]

  send_received-Falls :
      (clock : Clock) (now i : ℕ) (q : TxnQ TxnReq) (r : Round TxnReq)
      → late ≤ clock.first
      → get_elem? (t.processor).ordered i ≡ some q
      → IsReceived (early late) (tally (early late) q.items) r
      → IsReceived one (tally one q.items) r
      → Keeps (FallsIf (is_works r) t) (send_received node clock now i r t)
  unfolding send_received
  send_received-Falls clock now i q waits after found e o = refl
  send_received-Falls clock now i q ends after found e o = refl
  send_received-Falls clock now i q (works req q' stop) after found e o =
      let tp : TxnProcessor = record (t.processor) { ordered = set (t.processor).ordered i q' } in
      Keeps-bind (λ r. (r.0 ≡ tp) × IsAnswered r.1) _ (send node clock req tp) _
        (send_late node late clock after req
          (omega (arith, e, over, tally-le (early late) (t.processor).ordered i q found)) tp)
        (λ r h.
          after_send-Falls now req r.1 (record t { processor = r.0 }) h.1
            (rw h.0 (omega (arith, o, tally_queues-set one (t.processor).ordered i q q' found))))

  after_sort-Falls :
      (now : ℕ) (req : TxnReq) (s : Sorted) (rest : List TxnReq) (tp : TxnProcessor)
      → IsNotDelayed s
      → tp.ordered ≡ (t.processor).ordered
      → Sorts one req t.processor (tp, s)
      → IsTaken one t.timers (some (req, rest))
      → FallsIf true t (after_sort now req s (record t { processor = tp; timers = rest }))
  unfolding after_sort
  after_sort-Falls now req queued rest tp h o g e =
      (rw o (omega (arith, g, e, ap (tally_queues one) o)))
  after_sort-Falls now req delayed rest tp h o g e = elim h [ ]
  after_sort-Falls now req (responded status) rest tp h o g e =
      (omega (
        arith,
        g,
        e,
        ap (tally_queues one) o,
        steps_of-le (respond_with_status now status).status (respond_with_status now status).err,
      ))

  timer_elapsed-Falls :
      (now : ℕ) (o : Option (TxnReq × List TxnReq))
      → IsTaken one t.timers o
      → Keeps (FallsIf (is_some o) t) (timer_elapsed node now o t)
  unfolding timer_elapsed
  timer_elapsed-Falls now none e = refl
  timer_elapsed-Falls now (some (req, rest)) e =
      Keeps-bind _ _ (requeue req t.processor) _
        (Keeps-both _ _ (requeue req t.processor) (requeue_same req t.processor)
          (requeue-Sorts one req t.processor))
        (λ r h. after_sort-Falls now req r.1 rest r.0 (h.0).1 (h.0).0 h.1 e)

  call_replied-Falls :
      (now : ℕ) (value : Value) (error : Option String) (o : Option (TxnReq × List TxnReq))
      → IsTaken one t.calls o
      → FallsIf (is_some o) t (call_replied node now value error o t)
  unfolding call_replied
  call_replied-Falls now value error none e = refl
  call_replied-Falls now value error (some (req, rest)) e =
      (omega (arith, e, steps_of-le (respond now value error).status (respond now value error).err))

  after_round-Falls :
      (req : TxnReq) (w : Option TxnReq) (resp : TxnResp) (rest : List (TxnReq × Response)) (n : ℕ)
      (tp : TxnProcessor) (echoes : List TxnReq)
      → tp.ordered ≡ (t.processor).ordered
      → GainsIf one req t.processor (is_waiting w) tp
      → total steps_of_answer t.answers ≡ n + total steps_of_answer rest
      → (n ≡ 3) ⊎ ((n ≡ 1) × (w ≡ none))
      → FallsIf true t
          (after_round req w resp (record t { processor = tp; answers = rest; echoes = echoes }))
  unfolding after_round
  after_round-Falls req none resp rest n tp echoes o g e h = (elim h [
    | inl k ↦ omega (arith, g, e, k, ap (tally_queues one) o)
    | inr (k, _) ↦ omega (arith, g, e, k, ap (tally_queues one) o)
  ])
  after_round-Falls req (some again) resp rest n tp echoes o g e h = (elim h [
    | inl k ↦ omega (arith, g, e, k, ap (tally_queues one) o)
    | inr (k, absurd_) ↦ cc
  ])

  answer_taken-Falls :
      (clock : Clock) (o : Option ((TxnReq × Response) × List (TxnReq × Response)))
      → IsTaken steps_of_answer t.answers o
      → Keeps (FallsIf (is_some o) t) (answer_taken node clock o t)
  unfolding answer_taken
  answer_taken-Falls clock none e = refl
  answer_taken-Falls clock (some ((req, resp), rest)) e =
      let m = submit_round node clock req resp new_txn_resp t.processor in
      Keeps-bind _ _ m _
        (Keeps-both _ _ m (submit_round-ordered node clock req resp new_txn_resp t.processor) (
          Keeps-both _ _ m
            (submit_round-GainsIf one (λ q. refl) node clock req resp new_txn_resp t.processor)
            (submit_round-steps_of node clock req resp new_txn_resp t.processor)))
        (λ s h.
          after_round-Falls req s.waiting s.resp rest (steps_of_answer (req, resp)) s.processor _
            h.0 (h.1).0 e (h.1).1)

  sorts-Falls :
      (clock : Clock) (now i : ℕ) (prefer_cancel : Bool) (o : Option (TxnQ TxnReq))
      → late ≤ clock.first
      → get_elem? (t.processor).unordered i ≡ o
      → Keeps
          (FallsIf (works_at prefer_cancel o) t)
          (deref o >>= λ q. sort_received node clock now i (worker_round prefer_cancel q) t)
  sorts-Falls clock now i prefer_cancel none after found = tt
  sorts-Falls clock now i prefer_cancel (some q) after found =
      sort_received-Falls clock now i q (worker_round prefer_cancel q) after found
        (worker_round-IsReceived (early late) prefer_cancel q)
        (worker_round-IsReceived one prefer_cancel q)

  sends-Falls :
      (clock : Clock) (now i : ℕ) (prefer_cancel : Bool) (o : Option (TxnQ TxnReq))
      → late ≤ clock.first
      → get_elem? (t.processor).ordered i ≡ o
      → Keeps
          (FallsIf (works_at prefer_cancel o) t)
          (deref o >>= λ q. send_received node clock now i (worker_round prefer_cancel q) t)
  sends-Falls clock now i prefer_cancel none after found = tt
  sends-Falls clock now i prefer_cancel (some q) after found =
      send_received-Falls clock now i q (worker_round prefer_cancel q) after found
        (worker_round-IsReceived (early late) prefer_cancel q)
        (worker_round-IsReceived one prefer_cancel q)

  -- Once all requests have expired, each event that submits none does nothing, or it brings the end nearer.
  pub perform-Falls : (a : Event) → IsLate late a → Keeps (FallsIf (acts a t) t) (perform node a t)
  unfolding perform
  perform-Falls (submits req) h = elim h [ ]
  perform-Falls (sorts prefer_cancel clock now i) after =
      sorts-Falls clock now i prefer_cancel (get_elem? (t.processor).unordered i) after refl
  perform-Falls (elapses now k) h =
      timer_elapsed-Falls now (take_out k t.timers) (take_out-IsTaken one k t.timers)
  perform-Falls (sends prefer_cancel clock now i) after =
      sends-Falls clock now i prefer_cancel (get_elem? (t.processor).ordered i) after refl
  perform-Falls (replies now k value error) h =
      call_replied-Falls now value error (take_out k t.calls) (take_out-IsTaken one k t.calls)
  perform-Falls (evaluates k clock) h =
      answer_taken-Falls clock (take_out k t.answers) (take_out-IsTaken steps_of_answer k t.answers)
