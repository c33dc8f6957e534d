-- ===== src/Endpoint/EventsEth/Tests.antt =====
-- The theorems about subscriptions at concrete inputs.

use relayer2_public.Base.{ℕ, ◌≡◌, refl, true, none, some, List, [], ◌∷◌}
use relayer2_public.Endpoint.EventsEth.{
  EventsEth, Event, logs_call, register_logs, subscribe_logs, send_logs, receive_logs, perform,
  Reach, here, next, new_events_eth,
}
use relayer2_public.Endpoint.EventsEth.Relay.{IsSound, Reach-IsSound}
use relayer2_public.Endpoint.EventsEth.Table.{is_tabled, Reach-IsTabled}

abbrev State : Type 0
State = EventsEth ℕ ℕ

-- What a notifier gives that encodes at once.
abbrev copy : List ℕ → List ℕ
copy batch = batch

-- The state after the events that can happen, with channels of four.
abbrev run : List (Event ℕ ℕ) → State → State
run [] e = e
run (a ∷ as_) e = elim (perform 4 4 copy a e) [ none ↦ e | some e' ↦ run as_ e' ]

abbrev begun : State
begun = run (logs_call true "0x1" ∷ register_logs "0x1" ∷ []) new_events_eth

abbrev heard : State
heard = run (subscribe_logs "0x1" ∷ send_logs "0x1" (7 ∷ 8 ∷ []) ∷ receive_logs "0x1" ∷ []) begun

reached : Reach 4 4 copy new_events_eth heard
unfolding perform
reached =
    next (receive_logs "0x1")
      (next (send_logs "0x1" (7 ∷ 8 ∷ []))
        (next (subscribe_logs "0x1")
          (next (register_logs "0x1") (next (logs_call true "0x1") here refl) refl) refl)
        refl)
      refl

notified : (heard.logs "0x1").notified ≡ 7 ∷ 8 ∷ []
unfolding perform
notified = refl

Reach-IsSound_example : IsSound 4 4 copy (λ batch. refl) heard
Reach-IsSound_example = Reach-IsSound 4 4 copy (λ batch. refl) reached

Reach-IsTabled_example : heard.logs_ch_map "0x1" ≡ is_tabled (heard.logs "0x1").phase
Reach-IsTabled_example = Reach-IsTabled 4 4 copy reached "0x1"
