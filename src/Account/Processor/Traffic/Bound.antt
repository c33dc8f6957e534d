-- ===== src/Account/Processor/Traffic/Bound.antt =====
-- How many steps are left, once every request has expired, whatever the order of the steps.
use relayer2_public.Base.{
  ℕ, ◌+◌, ◌≤◌, ◌≡◌, ap, ◌∙◌, refl, Bool, true, false, List, [], ◌∷◌, arith, All, if◌then◌else◌, Run,
  done, panic, blocked, Keeps, Keeps-mono,
}
use relayer2_public.Account.Processor.Traffic.{Traffic, Moment, perform}
use relayer2_public.Account.Processor.Traffic.Tally.{holds}
use relayer2_public.Account.Processor.Traffic.Conserved.{perform-holds}
use relayer2_public.Account.Processor.Traffic.Late.{early, steps_left, Keeps-both}
use relayer2_public.Account.Processor.Traffic.Progress.{IsLate, FallsIf, acts, perform-Falls}
use relayer2_public.Account.Processor.Traffic.Drain.{adds_late}

step_le :
    (b : Bool) (t t' : Traffic) (n : ℕ)
    → FallsIf b t t'
    → n ≤ steps_left t'
    → (if b then 1 else 0) + n ≤ steps_left t
step_le true t t' n h k = omega (arith, h, k)
step_le false t t' n h k = omega (arith, k, ap steps_left h)

module _ {Q : Type 0} where
  -- The events of a run that find a request to deal with.
  abbrev pub acted : List (Moment Q) → Traffic → ℕ
  acted [] t = 0
  acted ((node, a) ∷ events) t = elim (perform node a t) [
    | done t' ↦ (if acts a t then 1 else 0) + acted events t'
    | panic ↦ 0
    | blocked ↦ 0
  ]

  acted_next :
      (late : ℕ) (b : Bool) (t : Traffic) (events : List (Moment Q)) (m : Run Traffic)
      → Keeps (λ t'. FallsIf b t t' × (holds (early late) t' ≡ 0)) m
      → ((t' : Traffic) → holds (early late) t' ≡ 0 → acted events t' ≤ steps_left t')
      → elim m [ done t' ↦ (if b then 1 else 0) + acted events t' | panic ↦ 0 | blocked ↦ 0 ]
        ≤ steps_left t
  acted_next late b t events (done t') (falls, over) h =
      step_le b t t' (acted events t') falls (h t' over)
  acted_next late b t events panic k h = omega arith
  acted_next late b t events blocked k h = omega arith

  -- Once all requests have expired and no more are submitted, no run makes more than `steps_left`
  -- steps that deal with a request and end, whatever the order of the steps and whatever the
  -- engine and the node reply.
  pub acted-le :
      (late : ℕ) (events : List (Moment Q)) (t : Traffic)
      → holds (early late) t ≡ 0
      → All (λ m. IsLate late m.1) events
      → acted events t ≤ steps_left t
  acted-le late [] t over hs = omega arith
  acted-le late ((node, a) ∷ events) t over (h, hs) =
      let m = perform node a t in
      acted_next late (acts a t) t events m
        (Keeps-mono _ _ m
          (Keeps-both _ _ m (perform-Falls node late t over a h)
            (perform-holds (early late) (λ req. refl) node a t))
          (λ t' k. (k.0, k.1 ∙ adds_late (early late) late (holds (early late) t) a h ∙ over)))
        (λ t' over'. acted-le late events t' over' hs)
