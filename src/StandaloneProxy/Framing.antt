-- ===== src/StandaloneProxy/Framing.antt =====
-- Requests and responses on the connection to the refiner, each behind its length.
use mathlib.Core.Path.{subst}
use relayer2_public.Base.{
  ℕ, String, ◌%◌, ◌<◌, ◌≡◌, zero, suc, refl, ap, ◌∙◌, Bool-cases, Option-cases, inl, inr, Bool,
  true, false, Option, none, some, List, [], ◌∷◌, ◌++◌, length, arith, ok, err,
}
use relayer2_public.StandaloneProxy.Client.{
  le_32, le_value, u32_mod, WriteError, Network, RpcClient, read_full, read_body, read_length,
  send_body, exchange, request, reconnect, write_failed, after_reconnect, dialled, if_connected,
}

-- A body behind its length.
abbrev pub frame : List ℕ → List ℕ
frame bs = le_32 (length bs % u32_mod) ++ bs

-- The deadline is set and both writes succeed.
abbrev pub IsSound : Network → Type 0
IsSound net = (net.set_deadline ≡ none) × (net.write_length ≡ none) × (net.write_body ≡ none)

le_value-le_32 : (n : ℕ) → n < u32_mod → le_value (le_32 n) ≡ n
unfolding le_value le_32
le_value-le_32 n small = omega arith

read_full_append : (a b : List ℕ) → read_full (length a) (a ++ b) ≡ ((a, b), true)
unfolding read_full
read_full_append [] b = refl
read_full_append (x ∷ a) b = rw (read_full_append a b)

read_four : (n : ℕ) (bs : List ℕ) → read_full 4 (le_32 n ++ bs) ≡ ((le_32 n, bs), true)
unfolding read_full le_32
read_four n bs = refl

short_length : (n : ℕ) → n < u32_mod → n % u32_mod ≡ n
short_length n small = omega arith

pub append_assoc : (a b c : List ℕ) → (a ++ b) ++ c ≡ a ++ (b ++ c)
append_assoc [] b c = refl
append_assoc (x ∷ a) b c = rw (append_assoc a b c)

read_length-frame :
    (net : Network) (bs rest : List ℕ)
    → length bs < u32_mod
    → read_length net (read_full 4 (frame bs ++ rest)) ≡ ok bs
unfolding read_length read_body
read_length-frame net bs rest small = rw (
  append_assoc (le_32 (length bs % u32_mod)) bs rest,
  short_length (length bs) small,
  read_four (length bs) (bs ++ rest),
  le_value-le_32 (length bs) small,
  read_full_append bs rest,
)

pub request_whole :
    (net : Network) (req resp rest : List ℕ) (c : ℕ)
    → IsSound net
    → length resp < u32_mod
    → net.incoming ≡ frame resp ++ rest
    → request net req (record { conn = some c })
      ≡ record { client = record { conn = some c }; sent = frame req; result = ok resp }
unfolding request exchange send_body
request_whole net req resp rest c sound short incoming =
    rw (sound.0, sound.1, sound.2, incoming, read_length-frame net resp rest short)

-- Over a sound connection the client sends the request behind its length, so that a reader of frames
-- gets it back, and returns the first whole response that arrives, whatever follows it.
pub request_answer :
    (net net' : Network) (req resp rest : List ℕ) (c : ℕ)
    → IsSound net
    → length req < u32_mod
    → length resp < u32_mod
    → net.incoming ≡ frame resp ++ rest
    → let e = request net req (record { conn = some c }) in
      (e.result ≡ ok resp)
      × (e.client.conn ≡ some c)
      × (read_length net' (read_full 4 (e.sent ++ rest)) ≡ ok req)
unfolding request exchange send_body
request_answer net net' req resp rest c sound short short' incoming = (
  rw (sound.0, sound.1, sound.2, incoming) (read_length-frame net resp rest short'),
  rw (sound.0, sound.1, sound.2),
  rw (sound.0, sound.1, sound.2) (read_length-frame net' req rest short),
)

-- What is read and the rest are what was there.
read_full_parts : (n : ℕ) (bs : List ℕ) → bs ≡ (read_full n bs).0.0 ++ (read_full n bs).0.1
unfolding read_full
read_full_parts zero bs = refl
read_full_parts (suc n) [] = refl
read_full_parts (suc n) (b ∷ bs) = ap (λ l. b ∷ l) (read_full_parts n bs)

length-read_full :
    (n : ℕ) (bs : List ℕ) → (read_full n bs).1 ≡ true → length (read_full n bs).0.0 ≡ n
unfolding read_full
length-read_full zero bs h = refl
length-read_full (suc n) [] h = cc
length-read_full (suc n) (b ∷ bs) h = ground (arith, length-read_full n bs h)

module _ (net : Network) (r : List ℕ) where
  read_body_sound :
      (p : (List ℕ × List ℕ) × Bool) → read_body net p ≡ ok r → (p.1 ≡ true) × (p.0.0 ≡ r)
  unfolding read_body
  read_body_sound ((buf, rest), true) h = (refl, cc)
  read_body_sound ((buf, rest), false) h = cc

  -- The bytes are a length of four, the response and a rest.
  abbrev pub IsAnswered : List ℕ → Type 0
  IsAnswered bs =
      (l : List ℕ) × (rest : List ℕ) × ((bs ≡ l ++ (r ++ rest))
        × (length l ≡ 4)
        × (length r ≡ le_value l))

  read_length_sound :
      (bs : List ℕ) (p : (List ℕ × List ℕ) × Bool)
      → read_full 4 bs ≡ p
      → read_length net p ≡ ok r
      → IsAnswered bs
  unfolding read_length
  read_length_sound bs ((l, rest), true) e h =
      let q = read_full (le_value l) rest in
      let whole = read_body_sound q h in
      let front : bs ≡ l ++ rest = subst (λ p. bs ≡ p.0.0 ++ p.0.1) e (read_full_parts 4 bs) in
      let behind : rest ≡ r ++ q.0.1 =
        subst (λ x. rest ≡ x ++ q.0.1) whole.1 (read_full_parts (le_value l) rest) in
      (
        l,
        q.0.1,
        (
          front ∙ ap (λ x. l ++ x) behind,
          subst (λ p. p.1 ≡ true → length p.0.0 ≡ 4) e (length-read_full 4 bs) refl,
          subst (λ x. length x ≡ le_value l) whole.1 (length-read_full (le_value l) rest whole.0),
        ),
      )
  read_length_sound bs ((l, rest), false) e h = cc

  after_reconnect_sound :
      (message : String) (p : RpcClient × Option String)
      → (after_reconnect message p).result ≡ ok r
      → IsAnswered net.incoming
  unfolding after_reconnect
  after_reconnect_sound message (rc, some e) h = cc
  after_reconnect_sound message (rc, none) h = cc

  write_failed_sound :
      (e : WriteError) (rc : RpcClient)
      → (write_failed net e rc).result ≡ ok r
      → IsAnswered net.incoming
  unfolding write_failed
  write_failed_sound e rc h = elim (Bool-cases e.is_epipe) [
    | inl epipe ↦ after_reconnect_sound e.message (reconnect net rc) (ground (arith, epipe, h))
    | inr other ↦ ground (arith, other, h)
  ]

  send_body_sound :
      (req : List ℕ) (rc : RpcClient)
      → (send_body net req rc).result ≡ ok r
      → IsAnswered net.incoming
  unfolding send_body
  send_body_sound req rc h = elim (Option-cases net.write_body) [
    | inl sent ↦
        read_length_sound net.incoming (read_full 4 net.incoming) refl (ground (arith, sent, h))
    | inr (e, failed) ↦ ground (arith, failed, h)
  ]

  exchange_sound :
      (req : List ℕ) (rc : RpcClient)
      → (exchange net req rc).result ≡ ok r
      → IsAnswered net.incoming
  unfolding exchange
  exchange_sound req rc h = elim (Option-cases net.set_deadline) [
    | inl in_time ↦ elim (Option-cases net.write_length) [
      | inl sent ↦ send_body_sound req rc (ground (arith, in_time, sent, h))
      | inr (e, failed) ↦ write_failed_sound e rc (ground (arith, in_time, failed, h))
    ]
    | inr (e, late) ↦ ground (arith, late, h)
  ]

  if_connected_sound :
      (req : List ℕ) (p : RpcClient × Option String)
      → (if_connected net req p).result ≡ ok r
      → IsAnswered net.incoming
  unfolding if_connected
  if_connected_sound req (rc, some e) h = cc
  if_connected_sound req (rc, none) h = exchange_sound req rc h

  -- A response that the client returns arrived whole, behind its length: whatever fails, no part of a
  -- response is taken for one.
  pub request-IsAnswered :
      (req : List ℕ) (rc : RpcClient) → (request net req rc).result ≡ ok r → IsAnswered net.incoming
  unfolding request
  request-IsAnswered req rc h = elim (Option-cases rc.conn) [
    | inl closed ↦ if_connected_sound req (reconnect net rc) (ground (arith, closed, h))
    | inr (c, kept) ↦ exchange_sound req rc (ground (arith, kept, h))
  ]

-- After a broken pipe the request fails, but the client is connected anew, and the next request over a
-- sound connection is answered.
request_after_epipe :
    (net next : Network) (req resp rest : List ℕ) (c c' : ℕ) (e : WriteError)
    → net.set_deadline ≡ none
    → net.write_length ≡ some e
    → e.is_epipe ≡ true
    → net.stat_missing ≡ false
    → net.dial ≡ ok c'
    → IsSound next
    → length req < u32_mod
    → length resp < u32_mod
    → next.incoming ≡ frame resp ++ rest
    → let failed = request net req (record { conn = some c }) in
      (failed.result ≡ err e.message)
      × (failed.client.conn ≡ some c')
      × ((request next req failed.client).result ≡ ok resp)
unfolding request exchange write_failed after_reconnect reconnect dialled
request_after_epipe net next req resp rest c c' e in_time broken epipe there dial sound short short'
      incoming =
    (
      rw (in_time, broken, epipe, there, dial),
      rw (in_time, broken, epipe, there, dial),
      rw (in_time, broken, epipe, there, dial)
          (request_answer next next req resp rest c' sound short short' incoming).0,
    )
