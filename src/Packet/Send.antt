-- ===== src/Packet/Send.antt =====
-- Packet.send and resend. Transport.outbound is a parameter: whether some interface took the packet,
-- and the packet after it.
use reticulum.Prelude.{
  ℕ, ◌+◌, ◌≡◌, Bytes, length, Bool, false, ◌==◌, Option, none, arith, if◌then◌else◌,
}
use reticulum.Prelude.Results.{Result, ok, err}
use reticulum.Packet.{Packet, link_destination}
use reticulum.Packet.Pack.{PackError, pack}

-- What a link counts; `closed` is whether its status is CLOSED.
pub record LinkState : Type 0 where
  pub closed : Bool
  pub last_outbound : ℕ
  pub tx : ℕ
  pub txbytes : ℕ

-- A receipt is known by a number.
pub record Outgoing : Type 0 where
  pub packet : Packet
  pub sent : Bool
  pub receipt : Option ℕ
  pub link : LinkState

pub data SendError : Type 0 where
  already_sent not_sent : SendError
  not_packed : PackError → SendError

-- `False`, or the receipt, which may be None.
pub data Answer : Type 0 where
  failed : Answer
  with_receipt : Option ℕ → Answer

abbrev dropped : Outgoing → Result SendError Answer × Outgoing
dropped o = (ok failed, record o { sent = false; receipt = none })

module _ (sha256 : Bytes → Bytes) (outbound : Outgoing → Bool × Outgoing) where
  -- `Transport.outbound(self)` and what follows it.
  unfoldable pub transmit : Outgoing → Result SendError Answer × Outgoing
  transmit o =
      let (taken, o') = outbound o in
      if taken then (ok (with_receipt o'.receipt), o') else dropped o'

  unfoldable pub pack_and_transmit : Outgoing → Result SendError Answer × Outgoing
  unfolding transmit
  pack_and_transmit o =
      let (r, p) = pack sha256 o.packet in
      elim r [
        | err e ↦ (err (not_packed e), record o { packet = p })
        | ok _ ↦ transmit (record o { packet = p })
      ]

  abbrev count : ℕ → Outgoing → Outgoing
  count now o = record o {
    link = record o.link {
      last_outbound = now;
      tx = o.link.tx + 1;
      txbytes = o.link.txbytes + length o.packet.payload;
    };
  }

  abbrev pack_once : Outgoing → Result SendError Answer × Outgoing
  pack_once o = if o.packet.packed then transmit o else pack_and_transmit o

  unfoldable pub send : ℕ → Outgoing → Result SendError Answer × Outgoing
  unfolding pack_and_transmit
  send now o =
      if o.sent
      then (err already_sent, o)
      else if o.packet.destination.kind == link_destination
      then if o.link.closed then dropped o else pack_once (count now o)
      else pack_once o

  unfoldable pub resend : Outgoing → Result SendError Answer × Outgoing
  unfolding pack_and_transmit
  resend o = if o.sent then pack_and_transmit o else (err not_sent, o)

-- A packet whose sending failed counts as not sent and has no receipt, so that it may be sent again.
pub send-failed :
    (sha256 : Bytes → Bytes) (outbound : Outgoing → Bool × Outgoing) (now : ℕ) (o : Outgoing)
    → (send sha256 outbound now o).0 ≡ ok failed
    → ((send sha256 outbound now o).1.sent ≡ false)
      × ((send sha256 outbound now o).1.receipt ≡ none)
unfolding send pack_and_transmit transmit
send-failed sha256 outbound now o h = ground arith
