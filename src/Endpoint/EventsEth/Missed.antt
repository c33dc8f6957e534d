-- ===== src/Endpoint/EventsEth/Missed.antt =====
-- Who misses a head.
use relayer2_public.Base.{ℕ, String, List, ◌<◌, ◌≡◌, ◌≢◌, refl, true, [], ◌∷◌, ◌++◌, arith}
use relayer2_public.Endpoint.EventsEth.{
  is_listening, EventsEth, send_head, receive_head, when, take_head, perform, Reach, here, next,
}

-- With two subscribers to new heads in their loops and an empty channel, a broker that sends a head for
-- each of them can have one of them notified twice, and nobody else.
missed_head :
    {Block Log : Type 0} (new_heads_ch_size logs_ch_size : ℕ) (seen : List Log → List Log)
    (e : EventsEth Block Log) (id other : String) (h : Block)
    → id ≢ other
    → is_listening (e.heads id) ≡ true
    → is_listening (e.heads other) ≡ true
    → e.new_heads_ch ≡ []
    → 1 < new_heads_ch_size
    → (e' : EventsEth Block Log) × Reach new_heads_ch_size logs_ch_size seen e e'
      × (e'.notified_heads ≡ (e.notified_heads ++ ((id, h) ∷ [])) ++ ((id, h) ∷ []))
      × (e'.new_heads_ch ≡ [])
unfolding perform when take_head
missed_head new_heads_ch_size logs_ch_size seen e id other h apart first second empty room =
    let one : EventsEth _ _ = record e {
      new_heads_ch = h ∷ [];
      delivered_heads = e.delivered_heads ++ (h ∷ []);
    } in
    let two : EventsEth _ _ = record one {
      new_heads_ch = h ∷ h ∷ [];
      delivered_heads = one.delivered_heads ++ (h ∷ []);
    } in
    let three : EventsEth _ _ = record two {
      new_heads_ch = h ∷ [];
      notified_heads = e.notified_heads ++ ((id, h) ∷ []);
    } in
    let four : EventsEth _ _ = record three {
      new_heads_ch = [];
      notified_heads = three.notified_heads ++ ((id, h) ∷ []);
    } in
    (
      four,
      next (receive_head id) {s = three}
          (next (receive_head id) {s = two}
            (next (send_head h) {s = one}
              (next (send_head h) {s = e} here (rw empty (ground arith))) (ground arith))
            (rw first refl))
          (rw first refl),
      refl,
      refl,
    )
