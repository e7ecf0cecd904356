-- ===== src/Transport/Forward/Link.antt =====
-- The link transport handling of Transport.inbound, and the two kinds of transport one after the
-- other.
use reticulum.Prelude.{
  ℕ, Bytes, ◌∷◌, Bool, false, not, ◌&&◌, ◌||◌, Option, none, some, ◌==◌, if◌then◌else◌,
}
use reticulum.Packet.{announce, link_request, lr_proof}
use reticulum.Transport.Paths.{find}
use reticulum.Transport.Filter.{add_packet_hash}
use reticulum.Transport.Forward.{Arrived, Medium, LinkEntry, Routes, repeated, send_on}
use reticulum.Transport.Forward.Path.{transport_packet}

-- The interface on which a packet of the link goes on, from where it came in and its hop count.
unfoldable pub link_direction : LinkEntry → ℕ → ℕ → Option ℕ
link_direction e interface hops =
    if e.next_hop_interface == e.received_on
    then (if (hops == e.remaining_hops) || (hops == e.hops)
        then some e.next_hop_interface
        else none)
    else if interface == e.next_hop_interface
    then (if hops == e.remaining_hops then some e.received_on else none)
    else if interface == e.received_on
    then (if hops == e.hops then some e.next_hop_interface else none)
    else none

module _ (now : ℕ) where
  -- The hash becomes a seen one, the packet goes out, and the entry's timestamp is set.
  abbrev pub after_repeat : Arrived → LinkEntry → ℕ → Bytes → Routes → Routes
  after_repeat p e interface raw r =
      let touched = record e { timestamp = now } in
      record (send_on interface raw
        (record r { hashes = add_packet_hash p.packet_hash r.hashes })) {
          link_table = (p.destination_hash, touched) ∷ r.link_table;
        }

  unfoldable pub repeat_on : Arrived → LinkEntry → ℕ → Routes → Option Routes
  unfolding repeated
  repeat_on p e interface r = elim (repeated p) [
    | none ↦ none
    | some raw ↦ some (after_repeat p e interface raw r)
  ]

  unfoldable pub link_transport : Arrived → Routes → Option Routes
  unfolding link_direction repeat_on
  link_transport p r =
      if not (p.packet_type == announce)
        && (not (p.packet_type == link_request) && not (p.context == lr_proof))
      then (elim (find p.destination_hash r.link_table) [
        | none ↦ some r
        | some e ↦ elim (link_direction e p.receiving_interface p.hops) [
          | none ↦ some r
          | some interface ↦ repeat_on p e interface r
        ]
      ])
      else some r

-- What decides whether this node carries a packet of others: `transport_enabled()`, and whether an
-- interface is one of `local_client_interfaces`.
unfoldable pub for_local_client : Arrived → Routes → Bool
for_local_client p r =
    not (p.packet_type == announce)
    && (elim (find p.destination_hash r.tables.path_table) [ none ↦ false | some e ↦ e.hops == 0 ])

unfoldable pub for_local_client_link : (ℕ → Bool) → Arrived → Routes → Bool
for_local_client_link is_client p r =
    not (p.packet_type == announce) && (elim (find p.destination_hash r.link_table) [
      | none ↦ false
      | some e ↦ is_client e.received_on || is_client e.next_hop_interface
    ])

-- A packet for a local client has lost its transport id on the hop before, and gets it back.
unfoldable pub filled_in : Bytes → Arrived → Routes → Arrived
filled_in identity p r = elim p.transport_id [
  | some t ↦ p
  | none ↦ if for_local_client p r then record p { transport_id = some identity } else p
]

module _ (sha256 : Bytes → Bytes) (media : ℕ → Medium) (timeout : ℕ → ℕ → ℕ) (identity : Bytes)
    (now : ℕ) (transport_enabled : Bool) (is_client : ℕ → Bool) where
  unfoldable pub carry : Arrived → Routes → Option Routes
  unfolding for_local_client for_local_client_link filled_in transport_packet link_transport
  carry p r =
      if transport_enabled
        || (is_client p.receiving_interface
            || (for_local_client p r || for_local_client_link is_client p r))
      then (let q = filled_in identity p r in
          elim (transport_packet sha256 media timeout identity now q r) [
            | none ↦ none
            | some s ↦ link_transport now q s
          ])
      else some r
