-- ===== src/Endpoint/EventsEth/Relay.antt =====
-- What reaches the subscribers, and in which order.
use mathlib.Core.Path.{subst}
use mathlib.Core.List.{append-nil, append_assoc, map-append}
use relayer2_public.Base.{
  ℕ, String, ◌≤◌, ◌≡◌, refl, sym, ap, ◌∙◌, Bool, true, false, Option, none, some, List, [], ◌∷◌,
  ◌++◌, map, length, length-append, ltb, same_text, arith, if◌then◌else◌, Bool-cases, inl, inr,
}
use relayer2_public.Endpoint.EventsEth.{
  is_listening, LogsSub, EventsEth, assign, Event, new_heads, subscribe_new_heads, send_head,
  receive_head, stop_heads, logs_call, register_logs, subscribe_logs, send_logs, receive_logs,
  stop_logs, when, take_head, take_logs, perform, Reach, here, next, new_events_eth,
}

-- What holds of the value, if there is one.
abbrev pub Holds {ℓ κ} : {A : Type ℓ} → (A → Type κ) → Option A → Type κ
Holds P none = Unit
Holds P (some a) = P a

pub assign-all {ℓ κ} :
    {A : Type ℓ} (Q : A → Type κ) (id : String) (a : A) (f : String → A)
    → Q a
    → ((j : String) → Q (f j))
    → (j : String) → Q (assign id a f j)
assign-all Q id a f q h j = elim (Bool-cases (same_text id j)) [
  | inl same ↦ rw same q
  | inr other ↦ rw other (h j)
]

-- The batches one after the other.
abbrev pub concat {ℓ} : {A : Type ℓ} → List (List A) → List A
concat [] = []
concat (xs ∷ xss) = xs ++ concat xss

concat_snoc {ℓ} :
    {A : Type ℓ} (xss : List (List A)) (xs : List A) → concat (xss ++ (xs ∷ [])) ≡ concat xss ++ xs
concat_snoc [] xs = append-nil xs
concat_snoc (ys ∷ xss) xs = rw (concat_snoc xss xs, append_assoc ys (concat xss) xs)

-- What the client was notified of, and what waits in the channel, are what the broker has sent.
abbrev pub IsRelayed : {Log : Type 0} → ℕ → LogsSub Log → Type 0
IsRelayed logs_ch_size s =
    (s.notified ++ concat s.channel ≡ concat s.delivered) × (length s.channel ≤ logs_ch_size)

abbrev pub block_of : {Block : Type 0} → String × Block → Block
block_of p = p.1

module _ {Block Log : Type 0} where
  -- So with the heads, whoever was notified.
  abbrev pub AreHeadsRelayed : ℕ → EventsEth Block Log → Type 0
  AreHeadsRelayed new_heads_ch_size e =
      (map block_of e.notified_heads ++ e.new_heads_ch ≡ e.delivered_heads)
      × (length e.new_heads_ch ≤ new_heads_ch_size)

  pub when-Holds :
      (P : EventsEth Block Log → Type 0) (b : Bool) (e : EventsEth Block Log)
      → (b ≡ true → P e)
      → Holds P (when b e)
  unfolding when
  when-Holds P true e h = h refl
  when-Holds P false e h = tt

  pub if_Holds :
      (P : EventsEth Block Log → Type 0) (b : Bool) (o : Option (EventsEth Block Log))
      → Holds P o
      → Holds P (if b then o else none)
  if_Holds P true o h = h
  if_Holds P false o h = tt

  pub holds_some :
      (P : EventsEth Block Log → Type 0) (o : Option (EventsEth Block Log))
      (t : EventsEth Block Log)
      → Holds P o
      → o ≡ some t
      → P t
  holds_some P o t h e = subst (Holds P) e h

send_logs-IsRelayed :
    {Log : Type 0} (logs_ch_size : ℕ) (batch : List Log) (s : LogsSub Log)
    → IsRelayed logs_ch_size s
    → ltb (length s.channel) logs_ch_size ≡ true
    → IsRelayed logs_ch_size
        (record s { channel = s.channel ++ (batch ∷ []); delivered = s.delivered ++ (batch ∷ []) })
send_logs-IsRelayed logs_ch_size batch s (same, fits) room = (
  rw (concat_snoc s.channel batch, concat_snoc s.delivered batch)
      (sym (append_assoc s.notified (concat s.channel) batch) ∙ ap (λ l. l ++ batch) same),
  ground (arith, length-append s.channel (batch ∷ [])),
)

-- `Notify` encodes what its pointer holds before it returns, so each notification carries its own log.
module _ {Block Log : Type 0} (new_heads_ch_size logs_ch_size : ℕ) (seen : List Log → List Log)
    (copies : (batch : List Log) → seen batch ≡ batch) where
  abbrev pub IsSound : EventsEth Block Log → Type 0
  IsSound e =
      AreHeadsRelayed new_heads_ch_size e × ((id : String) → IsRelayed logs_ch_size (e.logs id))

  -- A subscription to logs takes another value.
  assign-IsRelayed :
      (id : String) (s : LogsSub Log) (e : EventsEth Block Log)
      → IsSound e
      → IsRelayed logs_ch_size s
      → (j : String) → IsRelayed logs_ch_size (assign id s e.logs j)
  assign-IsRelayed id s e sound r = assign-all (IsRelayed logs_ch_size) id s e.logs r sound.1

  send_head-AreHeadsRelayed :
      (h : Block) (e : EventsEth Block Log)
      → AreHeadsRelayed new_heads_ch_size e
      → ltb (length e.new_heads_ch) new_heads_ch_size ≡ true
      → (map block_of e.notified_heads ++ (e.new_heads_ch ++ (h ∷ []))
          ≡ e.delivered_heads ++ (h ∷ []))
        × (length (e.new_heads_ch ++ (h ∷ [])) ≤ new_heads_ch_size)
  send_head-AreHeadsRelayed h e (same, fits) room = (
    sym (append_assoc (map block_of e.notified_heads) e.new_heads_ch (h ∷ []))
        ∙ ap (λ l. l ++ (h ∷ [])) same,
    ground (arith, length-append e.new_heads_ch (h ∷ [])),
  )

  take_head-IsSound :
      (id : String) (hs : List Block) (e : EventsEth Block Log)
      → e.new_heads_ch ≡ hs
      → IsSound e
      → Holds IsSound (take_head id hs e)
  unfolding take_head
  take_head-IsSound id [] e same s = tt
  take_head-IsSound id (h ∷ hs) e same ((relayed, fits), logs) = (
    (
      rw
          (
            map-append block_of e.notified_heads ((id, h) ∷ []),
            append_assoc (map block_of e.notified_heads) (h ∷ []) hs,
          )
          (subst (λ l. map block_of e.notified_heads ++ l ≡ e.delivered_heads) same relayed),
      omega (arith, ap length same, fits),
    ),
    logs,
  )

  take_logs-IsSound :
      (id : String) (batches : List (List Log)) (e : EventsEth Block Log)
      → (e.logs id).channel ≡ batches
      → IsSound e
      → Holds IsSound (take_logs seen id (e.logs id) batches e)
  unfolding take_logs
  take_logs-IsSound id [] e same s = tt
  take_logs-IsSound id (batch ∷ rest) e same s = (
    s.0,
    assign-IsRelayed id _ e s (
      ap (λ l. ((e.logs id).notified ++ l) ++ concat rest) (copies batch)
          ∙ append_assoc (e.logs id).notified batch (concat rest)
          ∙ subst (λ l. (e.logs id).notified ++ concat l ≡ concat (e.logs id).delivered) same
              (s.1 id).0,
      omega (arith, ap length same, (s.1 id).1),
    ),
  )

  perform-IsSound :
      (a : Event Block Log) (e : EventsEth Block Log)
      → IsSound e
      → Holds IsSound (perform new_heads_ch_size logs_ch_size seen a e)
  unfolding perform
  perform-IsSound (new_heads supported id) e s = when-Holds IsSound _ _ (λ _. s)
  perform-IsSound (subscribe_new_heads id) e s = when-Holds IsSound _ _ (λ _. s)
  perform-IsSound (send_head h) e s =
      when-Holds IsSound _ _ (λ room. (send_head-AreHeadsRelayed h e s.0 room, s.1))
  perform-IsSound (receive_head id) e s =
      if_Holds IsSound (is_listening (e.heads id)) _ (take_head-IsSound id e.new_heads_ch e refl s)
  perform-IsSound (stop_heads id) e s = when-Holds IsSound _ _ (λ _. s)
  perform-IsSound (logs_call supported id) e s =
      when-Holds IsSound _ _ (λ _. (s.0, assign-IsRelayed id _ e s (s.1 id)))
  perform-IsSound (register_logs id) e s =
      when-Holds IsSound _ _ (λ _. (s.0, assign-IsRelayed id _ e s (s.1 id)))
  perform-IsSound (subscribe_logs id) e s =
      when-Holds IsSound _ _ (λ _. (s.0, assign-IsRelayed id _ e s (s.1 id)))
  perform-IsSound (send_logs id batch) e s = when-Holds IsSound _ _ (λ open_. (
    s.0,
    assign-IsRelayed id _ e s
        (send_logs-IsRelayed logs_ch_size batch (e.logs id) (s.1 id) (ground (arith, open_))),
  ))
  perform-IsSound (receive_logs id) e s =
      if_Holds IsSound (is_listening (e.logs id).phase) _
        (take_logs-IsSound id (e.logs id).channel e refl s)
  perform-IsSound (stop_logs id) e s =
      when-Holds IsSound _ _ (λ _. (s.0, assign-IsRelayed id _ e s (s.1 id)))

  -- Where `Notify` encodes what its pointer holds before it returns, in every state that the events lead
  -- to: the logs that the client of a subscription was notified of, and those that wait in its channel,
  -- are those that the broker has sent for that subscription, each once and in their order; the heads of
  -- which any of the clients were notified, all clients taken together, and those that wait in the one
  -- channel, are those that the broker has sent; and no channel holds more than its size.
  pub Reach-IsSound :
      {e : EventsEth Block Log}
      → Reach new_heads_ch_size logs_ch_size seen new_events_eth e
      → IsSound e
  Reach-IsSound here = ((refl, omega arith), λ id. (refl, omega arith))
  Reach-IsSound (next a {s = s} {t = t} r step) =
      holds_some IsSound (perform new_heads_ch_size logs_ch_size seen a s) t
        (perform-IsSound a s (Reach-IsSound r)) step
