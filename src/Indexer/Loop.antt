-- ===== src/Indexer/Loop.antt =====
-- The goroutine `index` by itself: it calls a function and looks at `stopCh`, again and again.
use relayer2_public.Base.{
  ◌≡◌, refl, true, false, Option, none, some, List, [], ◌∷◌, All, done, Returns, Returns-bind,
}
use relayer2_public.Indexer.State.{Indexer, World}
use relayer2_public.Indexer.Phases.{Phase, step}
use relayer2_public.Indexer.Machine.{
  Goroutine, calling, polling, idle, Machine, Event, call_next, poll, handle, run,
}
use relayer2_public.Indexer.Invariant.{IsReady, IsSane, step-IsReady}

-- The rounds of `index` in which the outside is as listed.
abbrev pub rounds : List World → List Event
rounds [] = []
rounds (w ∷ ws) = call_next w ∷ poll ∷ rounds ws

-- The goroutine is about to call a function that is ready, or has ended.
abbrev pub IsAlive : Goroutine → Indexer → Type 0
IsAlive (calling (some p)) i = IsReady (some p) i
IsAlive (calling none) i = ⊥
IsAlive (polling next) i = ⊥
IsAlive idle i = i.stop_closed ≡ true

-- A call of the goroutine, when the function that it calls is known to return.
pub call-Returns :
    (P : Option Phase × Indexer → Type 0) (Q : Machine → Type 0) (p : Phase) (w : World)
    (i : Indexer) (es : List Event)
    → Returns P (step p w i)
    → ((next : Option Phase) (j : Indexer)
        → P (next, j)
        → Returns Q (run es (record { indexer = j; goroutine = polling next })))
    → Returns Q (run (call_next w ∷ es) (record { indexer = i; goroutine = calling (some p) }))
unfolding run handle
call-Returns P Q p w i es h rest =
    Returns-bind (λ m. Returns Q (run es m)) Q _ (run es)
      (Returns-bind P _ (step p w i) _ h (λ r k. rest r.0 r.1 k)) (λ m k. k)

abbrev pub at_call : Phase → Indexer → Machine
at_call p i = record { indexer = i; goroutine = calling (some p) }

abbrev pub at_poll : Option Phase → Indexer → Machine
at_poll next i = record { indexer = i; goroutine = polling next }

abbrev pub ended : Indexer → Machine
ended i = record { indexer = record i { s = record (i.s) { started = false } }; goroutine = idle }

pub run-poll_open :
    (p : Phase) (i : Indexer) (es : List Event)
    → i.stop_closed ≡ false
    → run (poll ∷ es) (at_poll (some p) i) ≡ run es (at_call p i)
unfolding run handle
run-poll_open p i es h = rw h

pub run-poll_closed :
    (next : Option Phase) (i : Indexer) (es : List Event)
    → i.stop_closed ≡ true
    → run (poll ∷ es) (at_poll next i) ≡ run es (ended i)
unfolding run handle
run-poll_closed next i es h = rw h

-- A round whose function returns another one, and leaves `stopCh` open.
pub run-round_open :
    (p q : Phase) (w : World) (i j : Indexer) (es : List Event)
    → step p w i ≡ done (some q, j)
    → j.stop_closed ≡ false
    → run (call_next w ∷ poll ∷ es) (at_call p i) ≡ run es (at_call q j)
unfolding run handle
run-round_open p q w i j es e h = rw (e, handle, h)

run-rounds_idle :
    (ws : List World) (i : Indexer)
    → run (rounds ws) (record { indexer = i; goroutine = idle })
      ≡ done (record { indexer = i; goroutine = idle })
unfolding run handle
run-rounds_idle [] i = refl
run-rounds_idle (w ∷ ws) i = run-rounds_idle ws i

abbrev AllAlive : List Event → Type 0
AllAlive es =
    (g : Goroutine) (i : Indexer)
    → IsAlive g i
    → Returns (λ n. IsAlive n.goroutine n.indexer) (run es (record { indexer = i; goroutine = g }))

run-poll_IsAlive :
    (es : List Event) (next : Option Phase) (i : Indexer)
    → AllAlive es
    → IsReady next i
    → Returns (λ n. IsAlive n.goroutine n.indexer) (run (poll ∷ es) (at_poll next i))
run-poll_IsAlive es none i rest h =
    rw (run-poll_closed none i es (h.closed refl)) (rest idle (ended i).indexer (h.closed refl))
run-poll_IsAlive es (some p) i rest h =
    rw (run-poll_open p i es (h.opened refl)) (rest (calling (some p)) i h)

run-rounds_at : (ws : List World) → All IsSane ws → AllAlive (rounds ws)
run-rounds_at ws sane (calling none) i h = elim h [ ]
run-rounds_at ws sane (polling next) i h = elim h [ ]
run-rounds_at ws sane idle i h = rw (run-rounds_idle ws i) h
run-rounds_at [] sane (calling (some p)) i h = unfold run in h
run-rounds_at (w ∷ ws) sane (calling (some p)) i h =
    call-Returns (λ r. IsReady r.0 r.1) _ p w i (poll ∷ rounds ws) (step-IsReady p w i h sane.0)
      λ next j ready. run-poll_IsAlive (rounds ws) next j (run-rounds_at ws sane.1) ready

-- With no other goroutine about and in sane worlds, the goroutine that stands before a ready
-- function never panics, however long it runs: at the end it stands so again, or it has ended and
-- `stopCh` is closed.
pub run-rounds-IsAlive :
    (ws : List World) (m : Machine)
    → All IsSane ws
    → IsAlive m.goroutine m.indexer
    → Returns (λ n. IsAlive n.goroutine n.indexer) (run (rounds ws) m)
run-rounds-IsAlive ws m sane h = run-rounds_at ws sane m.goroutine m.indexer h
