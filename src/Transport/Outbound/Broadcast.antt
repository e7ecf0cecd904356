-- ===== src/Transport/Outbound/Broadcast.antt =====
-- Transport.outbound without a path: the interfaces on which the packet goes out, and the announces
-- that wait in a queue. The time that an announce takes on an interface is a parameter, being
-- computed in floating point from the bitrate and the cap.
use reticulum.Prelude.{
  ℕ, ◌+◌, Bytes, bytes_eq, length, List, [], ◌∷◌, ◌++◌, Bool, true, false, not, ◌&&◌, Option, none,
  some, ltb, leb, ◌==◌, if◌then◌else◌,
}
use reticulum.Packet.{announce}
use reticulum.Transport.Paths.{next_hop_interface}
use reticulum.Transport.Filter.{add_packet_hash}
use reticulum.Transport.Announces.{announce_emitted}
use reticulum.Transport.Outbound.{
  Outgoing, QueuedAnnounce, Port, Outbox, transmit_on, path_of, send_on_path,
}

-- MODE_ACCESS_POINT, MODE_ROAMING and MODE_BOUNDARY
abbrev pub mode_access_point : ℕ
mode_access_point = 0x03

abbrev pub mode_roaming : ℕ
mode_roaming = 0x04

abbrev pub mode_boundary : ℕ
mode_boundary = 0x05

-- Reticulum.MAX_QUEUED_ANNOUNCES
abbrev pub max_queued_announces : ℕ
max_queued_announces = 16384

-- `existing_entry`: the last one in the queue for the destination.
unfoldable pub existing_entry : Bytes → List QueuedAnnounce → Option QueuedAnnounce
existing_entry d [] = none
existing_entry d (e ∷ queue) =
    let later = existing_entry d queue in
    elim later [
      | some found ↦ some found
      | none ↦ if bytes_eq e.destination d then some e else none
    ]

abbrev pub refreshed : ℕ → Outgoing → ℕ → QueuedAnnounce → QueuedAnnounce
refreshed now p emitted e = record e { time = now; hops = p.hops; emitted = emitted; raw = p.raw }

-- The update writes to `e`, which the loop leaves at the last entry of the queue.
unfoldable pub refresh_last : ℕ → Outgoing → ℕ → List QueuedAnnounce → List QueuedAnnounce
refresh_last now p emitted [] = []
refresh_last now p emitted (e ∷ []) = refreshed now p emitted e ∷ []
refresh_last now p emitted (e ∷ f ∷ queue) = e ∷ refresh_last now p emitted (f ∷ queue)

unfoldable pub queue_announce : ℕ → Outgoing → Port → Port
unfolding existing_entry refresh_last announce_emitted
queue_announce now p port =
    let emitted = announce_emitted p.payload in
    if leb max_queued_announces (length port.announce_queue)
    then port
    else elim (existing_entry p.destination_hash port.announce_queue) [
      | some existing ↦
          if ltb existing.emitted emitted
          then record port { announce_queue = refresh_last now p emitted port.announce_queue }
          else port
      | none ↦
          (let entry : QueuedAnnounce = record {
            destination = p.destination_hash;
            time = now;
            hops = p.hops;
            emitted = emitted;
            raw = p.raw;
          } in
            record port { announce_queue = port.announce_queue ++ (entry ∷ []) })
    ]

abbrev pub has_bitrate : Option ℕ → Bool
has_bitrate none = false
has_bitrate (some bitrate) = not (bitrate == 0)

-- By the mode of the interface that the destination is reached on.
abbrev pub from_allows : Option Port → Bool → Bool
from_allows none boundary_blocks = false
from_allows (some from) boundary_blocks =
    not (from.mode == mode_roaming) && not (boundary_blocks && (from.mode == mode_boundary))

unfoldable pub port_of : Option ℕ → List Port → Option Port
port_of none ports = none
port_of (some n) [] = none
port_of (some n) (port ∷ ports) = if port.number == n then some port else port_of (some n) ports

-- A packet of a link only goes out on the link's interface, while the link is not closed.
abbrev pub link_allows : Option (Bool × ℕ) → ℕ → Bool
link_allows none n = true
link_allows (some (closed, attached)) n = not closed && (n == attached)

abbrev pub attached_allows : Option ℕ → ℕ → Bool
attached_allows none n = true
attached_allows (some attached) n = n == attached

module _ (now : ℕ) (wait_time : Port → Bytes → ℕ) where
  -- An announce of another node under the cap goes out at once, any other waits in the queue.
  unfoldable pub cap_announce : Outgoing → Port → Bool × Port
  unfolding queue_announce
  cap_announce p port =
      if (length port.announce_queue == 0)
        && (ltb port.announce_allowed_at now && has_bitrate port.bitrate)
      then (true, record port { announce_allowed_at = now + wait_time port p.raw })
      else (false, queue_announce now p port)

  -- `is_local` says that the destination is one of this node's.
  unfoldable pub allow_announce : Bool → Option Port → Outgoing → Port → Bool × Port
  unfolding cap_announce
  allow_announce is_local from p port =
      if port.mode == mode_access_point
      then (false, port)
      else if port.mode == mode_roaming
      then (if is_local then (true, port) else (from_allows from true, port))
      else if port.mode == mode_boundary
      then (if is_local then (true, port) else (from_allows from false, port))
      else if ltb 0 p.hops
      then cap_announce p port
      else (true, port)

  unfoldable pub should_transmit : Bool → Option Port → Outgoing → Port → Bool × Port
  unfolding allow_announce
  should_transmit is_local from p port =
      let allowed =
        link_allows p.link port.number && attached_allows p.attached_interface port.number in
      elim p.attached_interface [
        | some attached ↦ (allowed, port)
        | none ↦
            if p.packet_type == announce
            then (let (may, changed) = allow_announce is_local from p port in
                (allowed && may, changed))
            else (allowed, port)
      ]

  abbrev pub note_announce : Outgoing → Port → Port
  note_announce p port =
      if p.packet_type == announce
      then record port { sent_announces = now ∷ port.sent_announces }
      else port

  -- After the decision on one interface: whether the packet went out, the interface, and the rest.
  unfoldable pub carry_out : Outgoing → ℕ → Outbox → Bool × Port → Bool × Port × Outbox
  unfolding transmit_on
  carry_out p number s (true, changed) =
      (true, note_announce p changed, transmit_on p number p.raw s)
  carry_out p number s (false, changed) = (false, changed, s)

  -- One turn of the loop.
  unfoldable pub broadcast_on : Bool → Option Port → Outgoing → Port → Outbox → Bool × Port × Outbox
  unfolding should_transmit carry_out
  broadcast_on is_local from p port s =
      if port.is_out
      then carry_out p port.number s (should_transmit is_local from p port)
      else (false, port, s)

  unfoldable pub broadcast :
      Bool → Option Port → Outgoing → List Port → Outbox → Bool × List Port × Outbox
  unfolding broadcast_on
  broadcast is_local from p [] s = (false, [], s)
  broadcast is_local from p (port ∷ ports) s =
      let (went, changed, s') = broadcast_on is_local from p port s in
      let (others, rest, s'') = broadcast is_local from p ports s' in
      (if went then true else others, changed ∷ rest, s'')

  -- The hash is stored before the first packet goes out, if one does.
  unfoldable pub send_broadcast : Bool → Outgoing → Outbox → Bool × Outbox
  unfolding broadcast port_of
  send_broadcast is_local p s =
      let from = port_of (next_hop_interface p.destination_hash s.tables) s.ports in
      let (sent, ports, s') = broadcast is_local from p s.ports s in
      (
        sent,
        record s' {
          ports = ports;
          hashes = if sent then add_packet_hash p.packet_hash s.hashes else s.hashes;
        },
      )

  unfoldable pub outbound : Bool → Outgoing → Outbox → Bool × Outbox
  unfolding send_broadcast
  outbound is_local p s = elim (path_of p s) [
    | some e ↦ send_on_path now p e s
    | none ↦ send_broadcast is_local p s
  ]
