-- ===== src/Transport/Outbound.antt =====
-- Transport.outbound: where a packet of this node goes, by the path table, or else on all interfaces
-- that may carry it, with the queue for announces over the bandwidth cap.
pub mod Broadcast
pub mod Goes
pub mod Sent
pub mod OnPath
use reticulum.Prelude.{
  ℕ, suc, Bytes, List, [], ◌∷◌, Bool, true, false, not, ◌&&◌, Option, none, some, ltb, leb, ◌==◌,
  if◌then◌else◌,
}
use reticulum.Packet.{data_packet, announce, header_1, keepalive, lr_proof, resource}
use reticulum.Transport.Header.{insert_transport}
use reticulum.Transport.Paths.{PathEntry, Tables, find}
use reticulum.Transport.Filter.{Hashes, group, plain}

-- RESOURCE_RCL
abbrev pub resource_rcl : ℕ
resource_rcl = 0x07

-- What `outbound` reads of a packet: `link` is there for a link destination, whether the link is
-- closed and the interface it is attached to.
pub record Outgoing : Type 0 where
  pub raw : Bytes
  pub flags : ℕ
  pub hops : ℕ
  pub header_type : ℕ
  pub packet_type : ℕ
  pub context : ℕ
  pub kind : ℕ
  pub destination_hash : Bytes
  pub packet_hash : Bytes
  pub payload : Bytes
  pub create_receipt : Bool
  pub attached_interface : Option ℕ
  pub link : Option (Bool × ℕ)

pub record QueuedAnnounce : Type 0 where
  pub destination : Bytes
  pub time : ℕ
  pub hops : ℕ
  pub emitted : ℕ
  pub raw : Bytes

-- An interface in `Transport.interfaces`, each of which has a mode, with what limits its announces;
-- `sent_announces` has the times of `sent_announce`, latest first.
pub record Port : Type 0 where
  pub number : ℕ
  pub is_out : Bool
  pub mode : ℕ
  pub bitrate : Option ℕ
  pub announce_allowed_at : ℕ
  pub announce_queue : List QueuedAnnounce
  pub sent_announces : List ℕ

-- The shared state, the packets given to Transport.transmit, latest first, and how many receipts
-- were made for this packet.
pub record Outbox : Type 0 where
  pub tables : Tables
  pub hashes : Hashes
  pub ports : List Port
  pub transmitted : List (ℕ × Bytes)
  pub receipts : ℕ

unfoldable pub generates_receipt : Outgoing → Bool
generates_receipt p =
    p.create_receipt
    && ((p.packet_type == data_packet)
        && (not (p.kind == plain)
            && (not (leb keepalive p.context && leb p.context lr_proof)
                && not (leb resource p.context && leb p.context resource_rcl))))

-- Transport.transmit and `packet_sent`: a receipt for each interface.
unfoldable pub transmit_on : Outgoing → ℕ → Bytes → Outbox → Outbox
unfolding generates_receipt
transmit_on p interface raw s = record s {
  transmitted = (interface, raw) ∷ s.transmitted;
  receipts = if generates_receipt p then suc s.receipts else s.receipts;
}

module _ (now : ℕ) where
  -- The two branches that put the packet into transport: only a header of type 1 is extended, any
  -- other packet is not sent.
  unfoldable pub send_inserted : Outgoing → PathEntry → Outbox → Bool × Outbox
  unfolding transmit_on
  send_inserted p e s =
      if p.header_type == header_1
      then (let sent = transmit_on p e.interface (insert_transport p.flags e.next_hop p.raw) s in
          let touched = record e { timestamp = now } in
          (
            true,
            record sent {
              tables = record s.tables {
                path_table = (p.destination_hash, touched) ∷ s.tables.path_table;
              };
            },
          ))
      else (false, s)

  -- Where the path table has the destination.
  unfoldable pub send_on_path : Outgoing → PathEntry → Outbox → Bool × Outbox
  unfolding send_inserted transmit_on
  send_on_path p e s =
      if ltb 1 e.hops
      then send_inserted p e s
      else if (e.hops == 1) && s.hashes.is_client
      then send_inserted p e s
      else (true, transmit_on p e.interface p.raw s)

-- Announces, and packets for PLAIN and GROUP destinations, are never sent along a path.
unfoldable pub path_of : Outgoing → Outbox → Option PathEntry
path_of p s =
    if not (p.packet_type == announce) && (not (p.kind == plain) && not (p.kind == group))
    then find p.destination_hash s.tables.path_table
    else none
