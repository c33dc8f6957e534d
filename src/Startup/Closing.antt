-- ===== src/Startup/Closing.antt =====
-- What has been opened when the command ends, and in which order it is closed.
use mathlib.Core.List.{reverse, reverse-append, map-append}
use relayer2_public.Base.{
  String, ◌≡◌, refl, ap, ◌∙◌, Bool, true, false, Option, none, some, List, [], ◌∷◌, ◌++◌, map, All,
  Outcome, ok, err,
}
use relayer2_public.Startup.{
  Part, Action, opened, closed, Progress, Stage, running, fatal, panicked, Answers, step, check,
  check_panic, Wire, wire, register, open_part, open_optional, run_steps, steps, start_up, begun,
  store_handler, standalone_proxy, engine_eth, rpc_node, tar_indexer, indexer, pre_indexer, Exit,
  returned, exited_by, panics, finish,
}

-- The parts in the order of their opening.
abbrev pub opening_order : List Part → List Part
opening_order [] = []
opening_order (part ∷ deferred) = opening_order deferred ++ (part ∷ [])

-- What has been opened is what has been deferred to be closed, and nothing is closed yet.
abbrev IsPaired : Progress → Type 0
IsPaired p = p.trace ≡ map opened (opening_order p.deferred)

abbrev pub progress_of : Stage → Progress
progress_of (running p) = p
progress_of (fatal message p) = p
progress_of (panicked p) = p

abbrev IsSound : Stage → Type 0
IsSound s = IsPaired (progress_of s)

step-IsSound :
    (f : Progress → Stage)
    → ((p : Progress) → IsPaired p → IsSound (f p))
    → (s : Stage) → IsSound s
    → IsSound (step f s)
unfolding step
step-IsSound f h (running p) k = h p k
step-IsSound f h (fatal message p) k = k
step-IsSound f h (panicked p) k = k

check-IsSound :
    (o : Option String) (message : String) (p : Progress) → IsPaired p → IsSound (check o message p)
unfolding check
check-IsSound none message p k = k
check-IsSound (some e) message p k = k

check_panic-IsSound : (o : Option String) (p : Progress) → IsPaired p → IsSound (check_panic o p)
unfolding check_panic
check_panic-IsSound none p k = k
check_panic-IsSound (some e) p k = k

open_part-IsSound : (part : Part) (p : Progress) → IsPaired p → IsSound (open_part part p)
unfolding open_part
open_part-IsSound part p k =
    rw (map-append opened (opening_order p.deferred) (part ∷ []))
      (ap (λ l. l ++ (opened part ∷ [])) k)

wire-IsSound : (w : Wire) (p : Progress) → IsPaired p → IsSound (wire w p)
unfolding wire
wire-IsSound w p k = k

register-IsSound :
    (w : Wire) (o : Option String) (message : String) (p : Progress)
    → IsPaired p
    → IsSound (register w o message p)
unfolding register
register-IsSound w none message p k = k
register-IsSound w (some e) message p k = k

open_optional-IsSound :
    (part : Part) (o : Outcome Bool) (message : String) (p : Progress)
    → IsPaired p
    → IsSound (open_optional part o message p)
unfolding open_optional
open_optional-IsSound part (err e) message p k = k
open_optional-IsSound part (ok false) message p k = k
open_optional-IsSound part (ok true) message p k = open_part-IsSound part p k

abbrev KeepsSound : (Progress → Stage) → Type 0
KeepsSound f = (p : Progress) → IsPaired p → IsSound (f p)

run_steps-IsSound :
    (fs : List (Progress → Stage)) (s : Stage)
    → All KeepsSound fs
    → IsSound s
    → IsSound (run_steps fs s)
unfolding run_steps
run_steps-IsSound [] s h k = k
run_steps-IsSound (f ∷ fs) s (h, hs) k = run_steps-IsSound fs (step f s) hs (step-IsSound f h s k)

infixr 20 ◌then◌
◌then◌ : {A B : Type 0} → A → B → A × B
a then b = (a, b)

steps-KeepsSound : (a : Answers) → All KeepsSound (steps a)
steps-KeepsSound a =
    check-IsSound _ _
    then check-IsSound _ _
    then open_part-IsSound store_handler
    then check-IsSound _ _
    then wire-IsSound _
    then wire-IsSound _
    then open_part-IsSound standalone_proxy
    then check_panic-IsSound _
    then open_part-IsSound engine_eth
    then check-IsSound _ _
    then wire-IsSound _
    then wire-IsSound _
    then register-IsSound _ _ _
    then register-IsSound _ _ _
    then register-IsSound _ _ _
    then register-IsSound _ _ _
    then register-IsSound _ _ _
    then register-IsSound _ _ _
    then register-IsSound _ _ _
    then register-IsSound _ _ _
    then open_part-IsSound rpc_node
    then open_optional-IsSound tar_indexer _ _
    then check-IsSound _ _
    then open_part-IsSound indexer
    then open_optional-IsSound pre_indexer _ _
    then wire-IsSound _
    then tt

start_up-IsSound : (a : Answers) → IsSound (start_up a)
unfolding start_up
start_up-IsSound a = run_steps-IsSound (steps a) (running begun) (steps-KeepsSound a) refl

reverse-opening_order : (deferred : List Part) → reverse (opening_order deferred) ≡ deferred
reverse-opening_order [] = refl
reverse-opening_order (part ∷ deferred) =
    reverse-append (opening_order deferred) (part ∷ [])
    ∙ ap (λ l. part ∷ l) (reverse-opening_order deferred)

-- How the command ends: with nothing closed, or with everything that was opened closed in reverse.
abbrev pub IsClean : List Action × Exit → Type 0
IsClean (trace, exited_by message) = (ps : List Part) × (trace ≡ map opened ps)
IsClean (trace, returned) = (ps : List Part) × (trace ≡ map opened ps ++ map closed (reverse ps))
IsClean (trace, panics) = (ps : List Part) × (trace ≡ map opened ps ++ map closed (reverse ps))

finish-IsClean : (s : Stage) → IsSound s → IsClean (finish s)
unfolding finish
finish-IsClean (running p) k = (opening_order p.deferred, rw (k, reverse-opening_order p.deferred))
finish-IsClean (fatal message p) k = (opening_order p.deferred, k)
finish-IsClean (panicked p) k = (opening_order p.deferred, rw (k, reverse-opening_order p.deferred))

-- Whatever the constructors answer: when the start command returns after a signal or panics, all that
-- it has opened is closed, in the reverse order of opening; when it ends by `Fatal`, nothing is closed.
pub start_up-IsClean : (a : Answers) → IsClean (finish (start_up a))
start_up-IsClean a = finish-IsClean (start_up a) (start_up-IsSound a)
