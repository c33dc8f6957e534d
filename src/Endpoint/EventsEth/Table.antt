-- ===== src/Endpoint/EventsEth/Table.antt =====
-- The map of channels, and who misses a head.
use mathlib.Core.Path.{subst}
use relayer2_public.Base.{
  ℕ, String, ◌≡◌, refl, Bool, true, false, List, [], ◌∷◌, same_text, same_text→eq, ◌∙◌, arith,
  Bool-cases, inl, inr,
}
use relayer2_public.Endpoint.EventsEth.{
  Phase, idle, starting, registered, listening, ended, is_idle, is_registered, is_listening,
  LogsSub, EventsEth, assign, Event, new_heads, subscribe_new_heads, send_head, receive_head,
  stop_heads, logs_call, register_logs, subscribe_logs, send_logs, receive_logs, stop_logs,
  take_head, take_logs, perform, Reach, here, next, new_events_eth,
}
use relayer2_public.Endpoint.EventsEth.Relay.{Holds, when-Holds, if_Holds, holds_some}

-- From the entry of its channel to its end.
abbrev pub is_tabled : Phase → Bool
is_tabled registered = true
is_tabled listening = true
is_tabled _ = false

assign-IsTabled :
    {Log : Type 0} (id : String) (b : Bool) (s : LogsSub Log) (m : String → Bool)
    (logs : String → LogsSub Log)
    → b ≡ is_tabled s.phase
    → ((j : String) → m j ≡ is_tabled (logs j).phase)
    → (j : String) → assign id b m j ≡ is_tabled (assign id s logs j).phase
assign-IsTabled id b s m logs new old j = elim (Bool-cases (same_text id j)) [
  | inl same ↦ rw same new
  | inr other ↦ rw other (old j)
]

keep-IsTabled :
    {Log : Type 0} (id : String) (s : LogsSub Log) (m : String → Bool) (logs : String → LogsSub Log)
    → is_tabled (logs id).phase ≡ is_tabled s.phase
    → ((j : String) → m j ≡ is_tabled (logs j).phase)
    → (j : String) → m j ≡ is_tabled (assign id s logs j).phase
keep-IsTabled id s m logs still old j = elim (Bool-cases (same_text id j)) [
  | inl same ↦
      rw same (subst (λ i. m i ≡ is_tabled s.phase) (same_text→eq id j same) (old id ∙ still))
  | inr other ↦ rw other (old j)
]

idle_lem : (p : Phase) → is_idle p ≡ true → is_tabled p ≡ false
idle_lem idle h = refl
idle_lem starting h = cc
idle_lem registered h = cc
idle_lem listening h = cc
idle_lem ended h = refl

registered_lem : (p : Phase) → is_registered p ≡ true → is_tabled p ≡ true
registered_lem idle h = cc
registered_lem starting h = cc
registered_lem registered h = refl
registered_lem listening h = refl
registered_lem ended h = cc

module _ {Block Log : Type 0} (new_heads_ch_size logs_ch_size : ℕ)
    (seen : List Log → List Log) where
  -- The map has the channels of the subscriptions whose goroutine runs, and no other.
  abbrev pub IsTabled : EventsEth Block Log → Type 0
  IsTabled e = (id : String) → e.logs_ch_map id ≡ is_tabled (e.logs id).phase

  take_head-IsTabled :
      (id : String) (hs : List Block) (e : EventsEth Block Log)
      → IsTabled e
      → Holds IsTabled (take_head id hs e)
  unfolding take_head
  take_head-IsTabled id [] e t = tt
  take_head-IsTabled id (h ∷ hs) e t = t

  take_logs-IsTabled :
      (id : String) (batches : List (List Log)) (e : EventsEth Block Log)
      → IsTabled e
      → Holds IsTabled (take_logs seen id (e.logs id) batches e)
  unfolding take_logs
  take_logs-IsTabled id [] e t = tt
  take_logs-IsTabled id (batch ∷ rest) e t = keep-IsTabled id _ e.logs_ch_map e.logs refl t

  perform-IsTabled :
      (a : Event Block Log) (e : EventsEth Block Log)
      → IsTabled e
      → Holds IsTabled (perform new_heads_ch_size logs_ch_size seen a e)
  unfolding perform
  perform-IsTabled (new_heads supported id) e t = when-Holds IsTabled _ _ (λ _. t)
  perform-IsTabled (subscribe_new_heads id) e t = when-Holds IsTabled _ _ (λ _. t)
  perform-IsTabled (send_head h) e t = when-Holds IsTabled _ _ (λ _. t)
  perform-IsTabled (receive_head id) e t =
      if_Holds IsTabled (is_listening (e.heads id)) _ (take_head-IsTabled id e.new_heads_ch e t)
  perform-IsTabled (stop_heads id) e t = when-Holds IsTabled _ _ (λ _. t)
  perform-IsTabled (logs_call supported id) e t = when-Holds IsTabled _ _ (λ fresh.
      keep-IsTabled id _ e.logs_ch_map e.logs (idle_lem (e.logs id).phase (ground (arith, fresh)))
        t)
  perform-IsTabled (register_logs id) e t =
      when-Holds IsTabled _ _ (λ _. assign-IsTabled id true _ e.logs_ch_map e.logs refl t)
  perform-IsTabled (subscribe_logs id) e t =
      when-Holds IsTabled _ _ (λ known.
        keep-IsTabled id _ e.logs_ch_map e.logs (registered_lem (e.logs id).phase known) t)
  perform-IsTabled (send_logs id batch) e t =
      when-Holds IsTabled _ _ (λ _. keep-IsTabled id _ e.logs_ch_map e.logs refl t)
  perform-IsTabled (receive_logs id) e t =
      if_Holds IsTabled (is_listening (e.logs id).phase) _
        (take_logs-IsTabled id (e.logs id).channel e t)
  perform-IsTabled (stop_logs id) e t =
      when-Holds IsTabled _ _ (λ _. assign-IsTabled id false _ e.logs_ch_map e.logs refl t)

  -- In every state that the events lead to, the map has a channel just for the subscriptions whose
  -- goroutine has entered it and has not ended: no entry is left behind and none is dropped early.
  pub Reach-IsTabled :
      {e : EventsEth Block Log}
      → Reach new_heads_ch_size logs_ch_size seen new_events_eth e
      → IsTabled e
  Reach-IsTabled here = λ id. refl
  Reach-IsTabled (next a {s = s} {t = t} r step) =
      holds_some IsTabled (perform new_heads_ch_size logs_ch_size seen a s) t
        (perform-IsTabled a s (Reach-IsTabled r)) step
