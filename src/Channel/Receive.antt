-- ===== src/Channel/Receive.antt =====
-- Channel._receive and Channel._run_callbacks, and the registration of handlers and message types.
use reticulum.Prelude.{
  ℕ, ◌+◌, ◌%◌, List, [], ◌∷◌, ◌++◌, Bytes, Bool, true, false, not, ◌&&◌, Option, none, some, ltb,
  leb, ◌==◌, if◌then◌else◌,
}
use reticulum.Prelude.Results.{Result, ok, err}
use reticulum.Channel.{Message, Handler, Envelope, Channel, seq_modulus, window_max_fast}
use reticulum.Channel.Codec.{ChannelError, invalid_msg_type, unpack}
use reticulum.Channel.Ring.{emplace_envelope}

-- A message class: its MSGTYPE, whether it extends MessageBase, whether its constructor returns,
-- and its `unpack`.
pub record MessageClass : Type 0 where
  pub msgtype : Option ℕ
  pub extends_base : Bool
  pub constructs : Bool
  pub unpack : Bytes → Option Message

-- Channel._register_message_type
unfoldable pub register_message_type : MessageClass → Bool → Channel → Result ChannelError Channel
register_message_type class is_system_type c =
    if not class.extends_base then err invalid_msg_type else elim class.msgtype [
      | none ↦ err invalid_msg_type
      | some t ↦
          if leb 0xf000 t && not is_system_type
          then err invalid_msg_type
          else if not class.constructs
          then err invalid_msg_type
          else ok (record c {
            message_factories = λ k. if k == t then some class.unpack else c.message_factories k;
          })
    ]

-- Handlers run in order until one answers True; an exception of a handler counts as False. The
-- result is how many have run.
unfoldable pub run_callbacks : List Handler → Message → ℕ
run_callbacks [] m = 0
run_callbacks (cb ∷ cbs) m =
    let rest = run_callbacks cbs m in
    elim (cb m) [ none ↦ rest + 1 | some taken ↦ if taken then 1 else rest + 1 ]

-- The guard against sequence numbers behind the window.
unfoldable pub is_valid_sequence : ℕ → ℕ → Bool
is_valid_sequence next_rx sequence =
    if ltb sequence next_rx
    then (let window_overflow = (next_rx + window_max_fast) % seq_modulus in
        if ltb window_overflow next_rx then leb sequence window_overflow else false)
    else true

abbrev pub next_sequence : ℕ → ℕ
next_sequence n = (n + 1) % seq_modulus

-- The inner loop, run when the sequence numbers have wrapped: envelopes in the order of the ring,
-- each with the next expected number.
unfoldable pub collect_wrapped : List Envelope → ℕ → List Envelope × ℕ
collect_wrapped [] next = ([], next)
collect_wrapped (e ∷ ring) next =
    let same = e.sequence == next in
    let (found, last) = collect_wrapped ring (if same then next_sequence next else next) in
    (if same then e ∷ found else found, last)

-- The outer loop over the rest of the ring; `ring` is the whole ring, for the inner loop.
unfoldable pub collect : List Envelope → List Envelope → ℕ → List Envelope × ℕ
collect ring [] next = ([], next)
collect ring (e ∷ rest) next =
    let same = e.sequence == next in
    let wraps = same && next_sequence next == 0 in
    let (wrapped, next') =
      if wraps then collect_wrapped ring 0 else ([], if same then next_sequence next else next) in
    let (found, last) = collect ring rest next' in
    (if same then e ∷ (wrapped ++ found) else found, last)

-- `self._rx_ring.remove(e)`: the envelopes of the ring have different sequence numbers.
unfoldable pub remove : ℕ → List Envelope → List Envelope
remove s [] = []
remove s (e ∷ ring) = let rest = remove s ring in if e.sequence == s then ring else e ∷ rest

-- What a received packet does: the channel after it, the messages that were handed to the
-- handlers, in order, and how many handlers each went through.
pub record Received : Type 0 where
  pub channel : Channel
  pub delivered : List Message
  pub handlers_run : List ℕ

-- `_receive` has unpacked every envelope of the ring before it put it there, so `e.message` is set
-- and the second `unpack` is not reached; an envelope without a message would end the loop.
unfoldable pub deliver : List Envelope → Received → Received
deliver [] r = r
deliver (e ∷ es) r = elim e.message [
  | none ↦ r
  | some m ↦ deliver es (record {
    channel = record r.channel { rx_ring = remove e.sequence r.channel.rx_ring };
    delivered = r.delivered ++ m ∷ [];
    handlers_run = r.handlers_run ++ run_callbacks r.channel.message_callbacks m ∷ [];
  })
]

abbrev pub received_envelope : ℕ → Message → Bytes → Envelope
received_envelope sequence m raw = record {
  sequence = sequence;
  message = some m;
  raw = some raw;
  packet = none;
  tries = 0;
  unpacked = true;
  packed = false;
  tracked = false;
}

abbrev pub nothing_received : Channel → Received
nothing_received c = record { channel = c; delivered = []; handlers_run = [] }

-- The part of `_receive` behind the guard.
unfoldable pub receive_envelope : Envelope → Channel → Received
receive_envelope e c =
    let (is_new, ring) = emplace_envelope c.next_rx_sequence e c.rx_ring in
    if is_new
    then (let (contiguous, next) = collect ring ring c.next_rx_sequence in
        deliver contiguous
          (nothing_received (record c { rx_ring = ring; next_rx_sequence = next })))
    else nothing_received c

unfoldable pub receive : Bytes → Channel → Received
receive raw c = elim (unpack c.message_factories raw) [
  | err x ↦ nothing_received c
  | ok (sequence, m) ↦
      if is_valid_sequence c.next_rx_sequence sequence
      then receive_envelope (received_envelope sequence m raw) c
      else nothing_received c
]
