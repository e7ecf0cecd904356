-- ===== src/Channel/Window.antt =====
-- Channel's window: its set-up by the round-trip time, Channel._packet_tx_op,
-- _packet_delivered and _packet_timeout, and _shutdown. Round-trip times are microseconds.
use reticulum.Prelude.{
  ℕ, ◌+◌, ◌-◌, Bytes, Option, none, some, List, [], ◌∷◌, ◌++◌, Bool, false, ◌&&◌, ltb, leb, ◌==◌,
  if◌then◌else◌,
}
use reticulum.Channel.{Envelope, Channel}

abbrev pub rtt_fast : ℕ
rtt_fast = 180000

abbrev pub rtt_medium : ℕ
rtt_medium = 750000

abbrev pub rtt_slow : ℕ
rtt_slow = 1450000

abbrev pub window_max_medium : ℕ
window_max_medium = 12

abbrev pub window_max_fast : ℕ
window_max_fast = 48

abbrev pub fast_rate_threshold : ℕ
fast_rate_threshold = 10

-- What the channel asks of its outlet.
pub data Effect : Type 0 where
  -- send a packet, or send one again
  transmit : Bytes → Effect
  resend : ℕ → Effect
  -- set the callbacks of a packet for its n-th try, or take them away
  watch : ℕ → ℕ → Effect
  unwatch : ℕ → Effect
  update_timeouts : Effect
  timed_out : Effect

-- Channel.__init__
unfoldable pub init : ℕ → Channel
init rtt =
    let slow = ltb rtt_slow rtt in
    record {
      tx_ring = [];
      rx_ring = [];
      message_callbacks = [];
      next_sequence = 0;
      next_rx_sequence = 0;
      message_factories = λ t. none;
      max_tries = 5;
      fast_rate_rounds = 0;
      medium_rate_rounds = 0;
      window = if slow then 1 else 2;
      window_max = if slow then 1 else 5;
      window_min = if slow then 1 else 2;
      window_flexibility = if slow then 1 else 4;
    }

-- The envelope of a packet; one that was never sent has no packet.
abbrev pub carries : ℕ → Envelope → Bool
carries packet e = elim e.packet [ none ↦ false | some p ↦ p == packet ]

unfoldable pub tx_find : ℕ → List Envelope → Option Envelope
tx_find packet [] = none
tx_find packet (e ∷ ring) =
    let rest = tx_find packet ring in if carries packet e then some e else rest

unfoldable pub tx_remove : ℕ → List Envelope → List Envelope
tx_remove packet [] = []
tx_remove packet (e ∷ ring) =
    let rest = tx_remove packet ring in if carries packet e then ring else e ∷ rest

-- `envelope.tries += 1`, on the object that stands in the ring.
unfoldable pub tx_retry : ℕ → List Envelope → List Envelope
tx_retry packet [] = []
tx_retry packet (e ∷ ring) =
    let rest = tx_retry packet ring in
    if carries packet e then record e { tries = e.tries + 1 } ∷ ring else e ∷ rest

unfoldable pub medium_round : Channel → Channel
medium_round c =
    let rounds = c.medium_rate_rounds + 1 in
    if ltb c.window_max window_max_medium && rounds == fast_rate_threshold
    then record c { medium_rate_rounds = rounds; window_max = window_max_medium; window_min = 5 }
    else record c { medium_rate_rounds = rounds }

unfoldable pub fast_round : Channel → Channel
fast_round c =
    let rounds = c.fast_rate_rounds + 1 in
    if ltb c.window_max window_max_fast && rounds == fast_rate_threshold
    then record c { fast_rate_rounds = rounds; window_max = window_max_fast; window_min = 16 }
    else record c { fast_rate_rounds = rounds }

-- The part of `_packet_tx_op` that counts rounds by the round-trip time.
unfoldable pub rate_round : ℕ → Channel → Channel
unfolding medium_round fast_round
rate_round rtt c =
    if rtt == 0
    then c
    else if ltb rtt_fast rtt
    then if ltb rtt_medium rtt
      then record c { fast_rate_rounds = 0; medium_rate_rounds = 0 }
      else medium_round (record c { fast_rate_rounds = 0 })
    else fast_round c

unfoldable pub widen : Channel → Channel
widen c = if ltb c.window c.window_max then record c { window = c.window + 1 } else c

-- `_packet_tx_op` with the operation of `_packet_delivered`, which always answers True.
unfoldable pub packet_delivered : ℕ → ℕ → Channel → Channel
unfolding rate_round widen
packet_delivered rtt packet c = elim (tx_find packet c.tx_ring) [
  | none ↦ c
  | some e ↦ rate_round rtt (widen (record c { tx_ring = tx_remove packet c.tx_ring }))
]

unfoldable pub clear_rings : List Envelope → List Effect
clear_rings [] = []
clear_rings (e ∷ ring) = elim e.packet [
  | none ↦ clear_rings ring
  | some p ↦ unwatch p ∷ clear_rings ring
]

unfoldable pub shutdown : Channel → Channel × List Effect
shutdown c =
    (record c { message_callbacks = []; tx_ring = []; rx_ring = [] }, clear_rings c.tx_ring)

unfoldable pub narrow : Channel → Channel
narrow c =
    if ltb c.window_min c.window
    then if ltb (c.window_min + c.window_flexibility) c.window_max
      then record c { window = c.window - 1; window_max = c.window_max - 1 }
      else record c { window = c.window - 1 }
    else c

-- `retry_envelope`. After too many tries the channel is shut down, so that `_packet_tx_op` finds
-- the envelope no longer in the ring and leaves the window alone.
unfoldable pub retry_envelope : ℕ → Envelope → Channel → Channel × List Effect
unfolding narrow shutdown
retry_envelope packet e c =
    if leb c.max_tries e.tries
    then (let (c', effects) = shutdown c in (c', effects ++ timed_out ∷ []))
    else (
      narrow (record c { tx_ring = tx_retry packet c.tx_ring }),
      resend packet ∷ watch packet (e.tries + 1) ∷ update_timeouts ∷ [],
    )

-- `delivered` is whether the outlet has the packet as delivered.
unfoldable pub packet_timeout : Bool → ℕ → Channel → Channel × List Effect
unfolding retry_envelope
packet_timeout delivered packet c =
    if delivered
    then (c, [])
    else elim (tx_find packet c.tx_ring) [ none ↦ (c, []) | some e ↦ retry_envelope packet e c ]
