-- ===== src/Transport/Forward/Path.antt =====
-- The general transport handling of Transport.inbound: a packet that names this node as its next
-- hop goes on along the path to its destination.
use reticulum.Prelude.{
  ℕ, ◌+◌, ◌-◌, ◌*◌, bit_and, bit_or, min, max, Bytes, bytes_eq, length, take, drop, [], ◌∷◌, ◌++◌,
  Bool, false, not, ◌&&◌, ◌||◌, Option, none, some, ltb, ◌==◌, if◌then◌else◌,
}
use reticulum.Packet.{header_1, dst_len, announce, link_request}
use reticulum.Packet.Hash.{get_hashable_part, truncated_hash, get_truncated_hash}
use reticulum.Link.{link_mtu_size}
use reticulum.Link.Signalling.{lr_start, mtu_from_lr_packet, mode_from_lr_packet, signalling_bytes}
use reticulum.Transport.Paths.{PathEntry, find}
use reticulum.Transport.Forward.{
  Arrived, Medium, LinkEntry, ReverseEntry, Routes, with_hops, repeated, send_on,
}

-- The three ways to write the header for the next hop, by the hops that remain.
unfoldable pub next_raw : Arrived → PathEntry → Option Bytes
unfolding with_hops repeated
next_raw p e =
    if ltb 1 e.hops
    then with_hops (take 1 p.raw) p.hops (e.next_hop ++ drop (dst_len + 2) p.raw)
    else if e.hops == 1
    then with_hops (bit_or (header_1 * 64) (bit_and p.flags 0b00001111) ∷ []) p.hops
        (drop (dst_len + 2) p.raw)
    else repeated p

-- `new_raw[:-LINK_MTU_SIZE]`
abbrev pub cut_mtu : Bytes → Bytes
cut_mtu raw = take (length raw - link_mtu_size) raw

-- `ph_mtu and ph_mtu < path_mtu`
abbrev pub is_below : Option ℕ → ℕ → Bool
is_below none mtu = false
is_below (some ph) mtu = not (ph == 0) && ltb ph mtu

-- The MTU of the link that a request asks for, lowered to what the two interfaces carry. `min` with
-- None raises, as a mode that is not enabled does, and the request is dropped.
unfoldable pub clamped : Option ℕ → ℕ → ℕ → Bytes → Option Bytes
clamped none nh mode raw = none
clamped (some ph) nh mode raw = elim (signalling_bytes (min nh ph) mode) [
  | none ↦ none
  | some sb ↦ some (cut_mtu raw ++ sb)
]

unfoldable pub clamp_mtu : Option ℕ → Medium → ℕ → ℕ → Bytes → Option Bytes
clamp_mtu ph out mtu mode raw = elim out.hw_mtu [
  | none ↦ some (cut_mtu raw)
  | some nh ↦
      if not out.autoconfigure_mtu && not out.fixed_mtu
      then some (cut_mtu raw)
      else if ltb nh mtu || is_below ph mtu
      then clamped ph nh mode raw
      else some raw
]

unfoldable pub clamp_request : Option ℕ → Medium → Arrived → Bytes → Option Bytes
clamp_request ph out p raw = elim (mtu_from_lr_packet p.payload) [
  | none ↦ some raw
  | some mtu ↦
      if mtu == 0 then some raw else clamp_mtu ph out mtu (mode_from_lr_packet p.payload) raw
]

module _ (sha256 : Bytes → Bytes) where
  -- Link.link_id_from_lr_packet
  unfoldable pub link_id_from_lr_packet : ℕ → Bytes → Bytes → Option Bytes
  unfolding get_hashable_part
  link_id_from_lr_packet header_type raw payload = elim (get_hashable_part header_type raw) [
    | none ↦ none
    | some part ↦
        if ltb lr_start (length payload)
        then some (truncated_hash sha256 (take (length part - (length payload - lr_start)) part))
        else some (truncated_hash sha256 part)
  ]

  module _ (media : ℕ → Medium) (timeout : ℕ → ℕ → ℕ) (identity : Bytes) (now : ℕ) where
    abbrev pub link_entry : Arrived → PathEntry → LinkEntry
    link_entry p e = record {
      timestamp = now;
      next_hop = e.next_hop;
      next_hop_interface = e.interface;
      remaining_hops = e.hops;
      received_on = p.receiving_interface;
      hops = p.hops;
      destination_hash = p.destination_hash;
      validated = false;
      proof_timeout = now + timeout p.receiving_interface (max 1 e.hops);
    }

    -- The path's timestamp is set after the packet was sent.
    abbrev pub touch_path : Bytes → PathEntry → Routes → Routes
    touch_path d e r = record r {
      tables = record r.tables {
        path_table = (d, record e { timestamp = now }) ∷ r.tables.path_table;
      };
    }

    unfoldable pub forward_request : Arrived → PathEntry → Bytes → Routes → Option Routes
    unfolding clamp_request link_id_from_lr_packet
    forward_request p e raw r =
        elim (clamp_request (media p.receiving_interface).hw_mtu (media e.interface) p raw) [
          | none ↦ none
          | some new_raw ↦ elim (link_id_from_lr_packet p.header_type p.raw p.payload) [
            | none ↦ none
            | some link_id ↦ some (
                touch_path p.destination_hash e (
                  send_on e.interface new_raw
                    (record r { link_table = (link_id, link_entry p e) ∷ r.link_table })))
          ]
        ]

    abbrev pub after_other : Arrived → PathEntry → Bytes → Bytes → Routes → Routes
    after_other p e raw hash r =
        let entry : ReverseEntry = record {
          received_on = p.receiving_interface;
          outbound_interface = e.interface;
          timestamp = now;
        } in
        touch_path p.destination_hash e
          (send_on e.interface raw (record r { reverse_table = (hash, entry) ∷ r.reverse_table }))

    unfoldable pub forward_other : Arrived → PathEntry → Bytes → Routes → Option Routes
    forward_other p e raw r = elim (get_truncated_hash sha256 p.header_type p.raw) [
      | none ↦ none
      | some hash ↦ some (after_other p e raw hash r)
    ]

    unfoldable pub forward : Arrived → PathEntry → Routes → Option Routes
    unfolding forward_request forward_other next_raw
    forward p e r = elim (next_raw p e) [
      | none ↦ none
      | some raw ↦
          if p.packet_type == link_request
          then forward_request p e raw r
          else forward_other p e raw r
    ]

    -- `none` is where `inbound` ends there and then: it raised, or dropped a link request.
    unfoldable pub transport_packet : Arrived → Routes → Option Routes
    unfolding forward
    transport_packet p r = elim p.transport_id [
      | none ↦ some r
      | some t ↦
          if not (p.packet_type == announce) && bytes_eq t identity
          then (elim (find p.destination_hash r.tables.path_table) [
            | none ↦ some r
            | some e ↦ forward p e r
          ])
          else some r
    ]
