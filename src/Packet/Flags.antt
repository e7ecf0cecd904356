-- ===== src/Packet/Flags.antt =====
-- Packet.get_packed_flags and the part of Packet.unpack that takes the flag byte apart.
use reticulum.Prelude.{
  ℕ, ◌*◌, ◌/◌, ◌<◌, bit_and, bit_or, ◌≡◌, refl, Bool, true, ◌&&◌, arith, ◌==◌, if◌then◌else◌,
}
use reticulum.Prelude.Tables.{all_below, all_below_sound}
use reticulum.Packet.{Packet, lr_proof, link_destination}

-- `(header_type << 6) | (context_flag << 5) | (transport_type << 4) | (kind << 2) | packet_type`
pub pack_bits : ℕ → ℕ → ℕ → ℕ → ℕ → ℕ
pack_bits h c t d p = bit_or (bit_or (bit_or (bit_or (h * 64) (c * 32)) (t * 16)) (d * 4)) p

-- The destination type that goes into the flags of a packet.
abbrev pub flag_kind : Packet → ℕ
flag_kind p = if p.context == lr_proof then link_destination else p.destination.kind

unfoldable pub get_packed_flags : Packet → ℕ
unfolding pack_bits
get_packed_flags p =
    if p.context == lr_proof
    then pack_bits p.header_type p.context_flag p.transport_type link_destination p.packet_type
    else pack_bits p.header_type p.context_flag p.transport_type p.destination.kind p.packet_type

-- The fields that `unpack` reads from the flag byte, in its order.
pub record FlagFields : Type 0 where
  pub header_type : ℕ
  pub context_flag : ℕ
  pub transport_type : ℕ
  pub destination_type : ℕ
  pub packet_type : ℕ

unfoldable pub unpack_flags : ℕ → FlagFields
unpack_flags flags = record {
  header_type = bit_and flags 0b01000000 / 64;
  context_flag = bit_and flags 0b00100000 / 32;
  transport_type = bit_and flags 0b00010000 / 16;
  destination_type = bit_and flags 0b00001100 / 4;
  packet_type = bit_and flags 0b00000011;
}

abbrev same_fields : FlagFields → ℕ → ℕ → ℕ → ℕ → ℕ → Bool
same_fields f h c t d p =
    f.header_type == h
    && (f.context_flag == c
        && (f.transport_type == t && (f.destination_type == d && f.packet_type == p)))

abbrev fits : ℕ → ℕ → ℕ → ℕ → ℕ → Bool
fits h c t d p =
    let flags = pack_bits h c t d p in
    same_fields (unpack_flags flags) h c t d p && (flags / 128 == 0)

flags_table :
    all_below 2 (λ h.
      all_below 2 (λ c. all_below 2 (λ t. all_below 4 (λ d. all_below 4 (λ p. fits h c t d p)))))
    ≡ true
unfolding all_below pack_bits unpack_flags
flags_table = refl

flags_fit : (h c t d p : ℕ) → h < 2 → c < 2 → t < 2 → d < 4 → p < 4 → fits h c t d p ≡ true
flags_fit h c t d p hh hc ht hd hp =
    all_below_sound 4 _
      (all_below_sound 4 _
        (all_below_sound 2 _ (all_below_sound 2 _ (all_below_sound 2 _ flags_table h hh) c hc) t ht)
        d hd)
      p hp

-- Taking the flag byte apart gives back the fields that it was packed from.
pub unpack_flags-pack_bits :
    (h c t d p : ℕ)
    → h < 2
    → c < 2
    → t < 2
    → d < 4
    → p < 4
    → unpack_flags (pack_bits h c t d p) ≡ record {
      header_type = h;
      context_flag = c;
      transport_type = t;
      destination_type = d;
      packet_type = p;
    }
unpack_flags-pack_bits h c t d p hh hc ht hd hp = ground (arith, flags_fit h c t d p hh hc ht hd hp)

-- The highest bit is left free: it marks a packet with an interface access code.
pub pack_bits-lt :
    (h c t d p : ℕ) → h < 2 → c < 2 → t < 2 → d < 4 → p < 4 → pack_bits h c t d p < 128
pack_bits-lt h c t d p hh hc ht hd hp = ground (arith, flags_fit h c t d p hh hc ht hd hp)
