-- ===== src/Channel/Send.antt =====
-- Channel.is_ready_to_send, Channel.send and Channel.mdu.
use reticulum.Prelude.{
  ℕ, ◌+◌, ◌-◌, ◌%◌, Bytes, length, none, some, List, [], ◌∷◌, Bool, true, false, not, ltb, leb,
  ◌==◌, if◌then◌else◌,
}
use reticulum.Prelude.Results.{Result, ok, err}
use reticulum.Channel.{Message, Envelope, Channel, seq_modulus}
use reticulum.Channel.Codec.{ChannelError, link_not_ready, too_big, pack_message}
use reticulum.Channel.Ring.{emplace_envelope}
use reticulum.Channel.Window.{Effect, transmit, watch, update_timeouts}

-- What the channel reads of its outlet: whether it is usable, its MDU, and which packets it has as
-- delivered. Every envelope of a ring belongs to the channel's one outlet.
pub record Outlet : Type 0 where
  pub is_usable : Bool
  pub mdu : ℕ
  pub is_delivered : ℕ → Bool

abbrev pub is_outstanding : Outlet → Envelope → Bool
is_outstanding o e = elim e.packet [ none ↦ true | some p ↦ not (o.is_delivered p) ]

unfoldable pub outstanding : Outlet → List Envelope → ℕ
outstanding o [] = 0
outstanding o (e ∷ ring) =
    let rest = outstanding o ring in if is_outstanding o e then rest + 1 else rest

unfoldable pub is_ready_to_send : Outlet → Channel → Bool
unfolding outstanding
is_ready_to_send o c =
    if not o.is_usable
    then false
    else if leb c.window (outstanding o c.tx_ring)
    then false
    else true

abbrev pub new_envelope : ℕ → Message → Envelope
new_envelope sequence m = record {
  sequence = sequence;
  message = some m;
  raw = none;
  packet = none;
  tries = 0;
  unpacked = false;
  packed = false;
  tracked = false;
}

-- A change of the envelope object with this sequence number, which stands in the ring.
unfoldable pub tx_modify : ℕ → (Envelope → Envelope) → List Envelope → List Envelope
tx_modify sequence change [] = []
tx_modify sequence change (e ∷ ring) =
    let rest = tx_modify sequence change ring in
    if e.sequence == sequence then change e ∷ ring else e ∷ rest

-- `envelope.pack()`, and then what follows on `outlet.send`.
abbrev pub as_packed : Bytes → Envelope → Envelope
as_packed raw e = record e { raw = some raw; packed = true }

abbrev pub as_sent : ℕ → Envelope → Envelope
as_sent packet e = record e { packet = some packet; tries = e.tries + 1 }

-- The channel with the new envelope in its ring, before it is packed.
unfoldable pub enqueue : Message → Channel → Channel
enqueue m c = record c {
  next_sequence = (c.next_sequence + 1) % seq_modulus;
  tx_ring = (emplace_envelope c.next_rx_sequence (new_envelope c.next_sequence m) c.tx_ring).1;
}

-- `packet` is the id of the packet that the outlet makes. An exception leaves behind what was
-- written before it: once the channel is ready, the envelope stays in the ring.
unfoldable pub send : Outlet → ℕ → Message → Channel → Result ChannelError (List Effect) × Channel
unfolding enqueue
send o packet m c =
    if is_ready_to_send o c
    then (let c' = enqueue m c in
        elim (pack_message c.next_sequence m) [
          | err x ↦ (err x, c')
          | ok raw ↦
              (let ring = tx_modify c.next_sequence (as_packed raw) c'.tx_ring in
                if ltb o.mdu (length raw) then (err too_big, record c' { tx_ring = ring }) else (
                  ok (transmit raw ∷ watch packet 1 ∷ update_timeouts ∷ []),
                  record c' { tx_ring = tx_modify c.next_sequence (as_sent packet) ring },
                ))
        ])
    else (err link_not_ready, c)

-- `outlet.mdu - 6` is negative for an outlet below 6 bytes; `-` gives 0 there.
unfoldable pub mdu : Outlet → ℕ
mdu o = let m = o.mdu - 6 in if ltb 0xFFFF m then 0xFFFF else m
