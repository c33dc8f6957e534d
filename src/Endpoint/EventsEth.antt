-- ===== src/Endpoint/EventsEth.antt =====
-- endpoint/eventsEth.go: the subscriptions to new heads and to logs. A subscription is known by its id; its
-- goroutine is the phase that it is in. What the broker and the client do is the choice of the next event.
pub mod Relay
pub mod Table
pub mod Missed
mod Tests
use relayer2_public.Base.{
  ℕ, String, ◌+◌, ◌≡◌, Bool, true, false, Option, none, some, List, [], ◌∷◌, ◌++◌, length, ltb,
  ◌&&◌, same_text, if◌then◌else◌, Outcome, ok, err,
}

-- Where a goroutine stands: not started, before its channel is in the map, before the broker knows the
-- channel, in the loop, or at its end.
pub data Phase : Type 0 where
  idle starting registered listening ended : Phase

abbrev pub is_idle : Phase → Bool
is_idle idle = true
is_idle _ = false

abbrev pub is_starting : Phase → Bool
is_starting starting = true
is_starting _ = false

abbrev pub is_registered : Phase → Bool
is_registered registered = true
is_registered _ = false

abbrev pub is_listening : Phase → Bool
is_listening listening = true
is_listening _ = false

abbrev pub err_notifications_unsupported : String
err_notifications_unsupported = "notifications not supported"

-- What `NewHeads` and `Logs` answer: the id of the new subscription, or an error.
unfoldable pub open_subscription : Bool → String → Outcome String
open_subscription supported id = if supported then ok id else err err_notifications_unsupported

-- A subscription to logs: its channel, and what the broker has put there and the client was notified of.
pub record LogsSub (Log : Type 0) : Type 0 where
  pub phase : Phase
  pub channel : List (List Log)
  pub delivered : List (List Log)
  pub notified : List Log

-- `EventsEth` with its goroutines. The channel of new heads is one for all of them; `delivered_heads` is
-- what the broker has put there, and `notified_heads` who was notified of what, in order.
pub record EventsEth (Block Log : Type 0) : Type 0 where
  pub new_heads_ch : List Block
  pub heads : String → Phase
  pub delivered_heads : List Block
  pub notified_heads : List (String × Block)
  pub logs_ch_map : String → Bool
  pub logs : String → LogsSub Log

abbrev pub assign {ℓ} : {A : Type ℓ} → String → A → (String → A) → String → A
assign id a f j = if same_text id j then a else f j

-- An event: a call of the client, a send of the broker, or a step of a goroutine.
pub data Event (Block Log : Type 0) : Type 0 where
  new_heads : Bool → String → Event Block Log
  subscribe_new_heads : String → Event Block Log
  send_head : Block → Event Block Log
  receive_head : String → Event Block Log
  stop_heads : String → Event Block Log
  logs_call : Bool → String → Event Block Log
  register_logs : String → Event Block Log
  subscribe_logs : String → Event Block Log
  send_logs : String → List Log → Event Block Log
  receive_logs : String → Event Block Log
  stop_logs : String → Event Block Log

module _ {Block Log : Type 0} where
  unfoldable pub put_phase : String → Phase → EventsEth Block Log → EventsEth Block Log
  put_phase id p e = record e { heads = assign id p e.heads }

  unfoldable pub put_logs : String → LogsSub Log → EventsEth Block Log → EventsEth Block Log
  put_logs id s e = record e { logs = assign id s e.logs }

  unfoldable pub when : Bool → EventsEth Block Log → Option (EventsEth Block Log)
  when enabled e = if enabled then some e else none

  unfoldable pub take_head :
      String → List Block → EventsEth Block Log → Option (EventsEth Block Log)
  take_head id [] e = none
  take_head id (h ∷ hs) e =
      some (record e { new_heads_ch = hs; notified_heads = e.notified_heads ++ ((id, h) ∷ []) })

  -- The loop over a batch passes a pointer to its one variable to `Notify` in each turn; `seen` is what
  -- the notifications of the batch then carry.
  unfoldable pub take_logs :
      (List Log → List Log)
      → String
      → LogsSub Log
      → List (List Log)
      → EventsEth Block Log
      → Option (EventsEth Block Log)
  unfolding put_logs
  take_logs seen id s [] e = none
  take_logs seen id s (batch ∷ rest) e =
      some (put_logs id (record s { channel = rest; notified = s.notified ++ seen batch }) e)

-- The sizes of the channels, and what the notifications of a batch carry.
module _ {Block Log : Type 0} (new_heads_ch_size logs_ch_size : ℕ)
    (seen : List Log → List Log) where
  -- The state after an event, where the event can happen.
  unfoldable pub perform : Event Block Log → EventsEth Block Log → Option (EventsEth Block Log)
  unfolding put_phase put_logs when take_head take_logs
  perform (new_heads supported id) e =
      when (supported && is_idle (e.heads id)) (put_phase id starting e)
  perform (subscribe_new_heads id) e = when (is_starting (e.heads id)) (put_phase id listening e)
  perform (send_head h) e = when (ltb (length e.new_heads_ch) new_heads_ch_size) (record e {
    new_heads_ch = e.new_heads_ch ++ (h ∷ []);
    delivered_heads = e.delivered_heads ++ (h ∷ []);
  })
  perform (receive_head id) e =
      if is_listening (e.heads id) then take_head id e.new_heads_ch e else none
  perform (stop_heads id) e = when (is_listening (e.heads id)) (put_phase id ended e)
  perform (logs_call supported id) e =
      when (supported && is_idle (e.logs id).phase)
        (put_logs id (record (e.logs id) { phase = starting }) e)
  perform (register_logs id) e =
      when (is_starting (e.logs id).phase)
        (record (put_logs id (record (e.logs id) { phase = registered }) e) {
          logs_ch_map = assign id true e.logs_ch_map;
        })
  perform (subscribe_logs id) e =
      when (is_registered (e.logs id).phase)
        (put_logs id (record (e.logs id) { phase = listening }) e)
  perform (send_logs id batch) e =
      when (is_listening (e.logs id).phase && ltb (length (e.logs id).channel) logs_ch_size) (
        put_logs id
          (record (e.logs id) {
            channel = (e.logs id).channel ++ (batch ∷ []);
            delivered = (e.logs id).delivered ++ (batch ∷ []);
          })
          e)
  perform (receive_logs id) e =
      if is_listening (e.logs id).phase
      then take_logs seen id (e.logs id) (e.logs id).channel e
      else none
  perform (stop_logs id) e =
      when (is_listening (e.logs id).phase)
        (record (put_logs id (record (e.logs id) { phase = ended }) e) {
          logs_ch_map = assign id false e.logs_ch_map;
        })

  -- The states that events lead to.
  pub data Reach (e : EventsEth Block Log) : EventsEth Block Log → Type 0 where
    here : Reach e e
    next :
        (a : Event Block Log) {s t : EventsEth Block Log}
        → Reach e s
        → perform a s ≡ some t
        → Reach e t

-- `NewEventsEth`
abbrev pub new_events_eth : {Block Log : Type 0} → EventsEth Block Log
new_events_eth = record {
  new_heads_ch = [];
  heads = λ _. idle;
  delivered_heads = [];
  notified_heads = [];
  logs_ch_map = λ _. false;
  logs = λ _. record { phase = idle; channel = []; delivered = []; notified = [] };
}
