-- ===== src/Transport/Header.antt =====
-- Transport.outbound where a packet goes to a destination more than one hop away: the packet is
-- given a header of type 2 with the address of the next transport node.
use reticulum.Prelude.{
  ℕ, ◌*◌, ◌<◌, ◌≡◌, refl, bit_and, bit_or, true, Bytes, length, take, drop, ◌∷◌, ◌++◌, ◌==◌, ◌&&◌,
  arith, drop-append,
}
use reticulum.Prelude.Tables.{all_below, all_below_sound}
use reticulum.Packet.{header_1, header_2, dst_len}
use reticulum.Packet.Flags.{unpack_flags}
use reticulum.Packet.Hash.{get_hash}

-- Transport.TRANSPORT
abbrev transport : ℕ
transport = 0x01

-- `(HEADER_2) << 6 | (TRANSPORT) << 4 | (flags & 0b00001111)`
pub transport_flags : ℕ → ℕ
transport_flags flags = bit_or (bit_or (header_2 * 64) (transport * 16)) (bit_and flags 0b00001111)

-- The new flags, `raw[1:2]`, the next hop and `raw[2:]`. `flags` is the packet's own attribute.
unfoldable pub insert_transport : ℕ → Bytes → Bytes → Bytes
unfolding transport_flags
insert_transport flags next_hop raw =
    transport_flags flags ∷ (take 1 (drop 1 raw) ++ (next_hop ++ drop 2 raw))

flags_table :
    all_below 256 (λ f.
      bit_and (transport_flags f) 0b00001111 == bit_and f 0b00001111
      && ((unpack_flags (transport_flags f)).header_type == header_2
          && ((unpack_flags (transport_flags f)).transport_type == transport
              && ((unpack_flags (transport_flags f)).packet_type == (unpack_flags f).packet_type
                  && (unpack_flags (transport_flags f)).destination_type
                    == (unpack_flags f).destination_type))))
    ≡ true
unfolding all_below transport_flags unpack_flags
flags_table = refl

-- The flags of a packet in transport keep the packet type and the destination type, and say that
-- the header is of type 2 and the packet in transport.
pub transport_flags_lem :
    (f : ℕ)
    → f < 256
    → (bit_and (transport_flags f) 0b00001111 ≡ bit_and f 0b00001111)
      × ((unpack_flags (transport_flags f)).header_type ≡ header_2)
      × ((unpack_flags (transport_flags f)).transport_type ≡ transport)
      × ((unpack_flags (transport_flags f)).packet_type ≡ (unpack_flags f).packet_type)
      × ((unpack_flags (transport_flags f)).destination_type ≡ (unpack_flags f).destination_type)
transport_flags_lem f h = ground (arith, all_below_sound 256 _ flags_table f h)

drop-next_hop : (t rest : Bytes) → length t ≡ dst_len → drop dst_len (t ++ rest) ≡ rest
drop-next_hop t rest h = drop-append dst_len t rest h

-- Inserting a transport header does not change the hash of a packet, whatever the hop count of
-- either, so every node on the way knows the packet by the same hash.
pub get_hash-insert_transport :
    (sha256 : Bytes → Bytes) (flags hops hops' : ℕ) (next_hop rest : Bytes)
    → flags < 256
    → length next_hop ≡ dst_len
    → get_hash sha256 header_2 (insert_transport flags next_hop (flags ∷ hops ∷ rest))
      ≡ get_hash sha256 header_1 (flags ∷ hops' ∷ rest)
unfolding insert_transport get_hash
get_hash-insert_transport sha256 flags hops hops' next_hop rest hf hn =
    rw (drop-next_hop next_hop rest hn, (transport_flags_lem flags hf).0)
