-- ===== src/Transport/Forward/Request.antt =====
-- What a forwarded packet keeps: its hash, and for a link request the id of the link and an MTU that
-- the interfaces on the way carry.
use reticulum.Prelude.{
  ℕ, ◌*◌, ◌<◌, ◌≡◌, inl, inr, refl, sym, ap, ◌∙◌, bit_and, bit_or, Bytes, length, drop-append, [],
  ◌∷◌, ◌++◌, Bool-cases, true, ◌&&◌, some, ltb, lt→ltb, ◌==◌, arith, if◌then◌else◌,
}
use reticulum.Prelude.Tables.{all_below, all_below_sound}
use reticulum.Packet.{header_1, header_2, dst_len}
use reticulum.Packet.Flags.{unpack_flags}
use reticulum.Packet.Hash.{get_hashable_part}
use reticulum.Transport.Paths.{PathEntry}
use reticulum.Transport.Forward.{Arrived, with_hops}
use reticulum.Transport.Forward.Path.{next_raw}

pub stripped_flags : ℕ → ℕ
stripped_flags flags = bit_or (header_1 * 64) (bit_and flags 0b00001111)

stripped_table :
    all_below 256 (λ f.
      bit_and (stripped_flags f) 0b00001111 == bit_and f 0b00001111
      && (unpack_flags (stripped_flags f)).header_type == header_1)
    ≡ true
unfolding all_below stripped_flags unpack_flags
stripped_table = refl

stripped_flags_lem :
    (f : ℕ)
    → f < 256
    → (bit_and (stripped_flags f) 0b00001111 ≡ bit_and f 0b00001111)
      × ((unpack_flags (stripped_flags f)).header_type ≡ header_1)
stripped_flags_lem f h = ground (arith, all_below_sound 256 _ stripped_table f h)

-- A packet in transport: two bytes, the transport id, and what the hash covers.
abbrev pub InTransport : Arrived → ℕ → Bytes → Bytes → Type 0
InTransport p old_hops t rest =
    (p.raw ≡ p.flags ∷ old_hops ∷ (t ++ rest))
    × (length t ≡ dst_len)
    × (p.flags < 256)
    × ((unpack_flags p.flags).header_type ≡ header_2)

-- What is sent on, `new_raw`, has a hash part that the next node computes with the header type that
-- it reads from the flags.
abbrev pub SameHash : ℕ → ℕ → Bytes → Bytes → Type 0
SameHash flags hops front rest =
    get_hashable_part (unpack_flags flags).header_type (flags ∷ hops ∷ (front ++ rest))
    ≡ some (bit_and flags 0b00001111 ∷ rest)

with_hops_lem :
    (first : Bytes) (hops : ℕ) (rest : Bytes)
    → hops < 256
    → with_hops first hops rest ≡ some (first ++ (hops ∷ rest))
unfolding with_hops
with_hops_lem first hops rest h = rw (lt→ltb hops 256 h) refl

hash_part_2 :
    (flags hops : ℕ) (t rest : Bytes)
    → (unpack_flags flags).header_type ≡ header_2
    → length t ≡ dst_len
    → SameHash flags hops t rest
unfolding get_hashable_part
hash_part_2 flags hops t rest h ht = rw (h, drop-append dst_len t rest ht) refl

hash_part_1 :
    (flags hops : ℕ) (rest : Bytes)
    → (unpack_flags flags).header_type ≡ header_1
    → SameHash flags hops [] rest
unfolding get_hashable_part
hash_part_1 flags hops rest h = rw h refl

pub hash_here :
    (p : Arrived) (old_hops : ℕ) (t rest : Bytes)
    → InTransport p old_hops t rest
    → get_hashable_part header_2 p.raw ≡ some (bit_and p.flags 0b00001111 ∷ rest)
unfolding get_hashable_part
hash_here p old_hops t rest (raw, ht, hf, two) = rw (raw, drop-append dst_len t rest ht) refl

-- The flags and the bytes before `rest` that go on, by the hops that remain.
abbrev pub next_flags : Arrived → PathEntry → ℕ
next_flags p e =
    if ltb 1 e.hops then p.flags else if e.hops == 1 then stripped_flags p.flags else p.flags

abbrev pub next_front : PathEntry → Bytes → Bytes
next_front e t = if ltb 1 e.hops then e.next_hop else if e.hops == 1 then [] else t

pub next_raw_lem :
    (p : Arrived) (e : PathEntry) (old_hops : ℕ) (t rest : Bytes)
    → InTransport p old_hops t rest
    → p.hops < 256
    → next_raw p e ≡ some (next_flags p e ∷ p.hops ∷ (next_front e t ++ rest))
unfolding next_raw stripped_flags
next_raw_lem p e old_hops t rest (raw, ht, hf, two) hh = elim (Bool-cases (ltb 1 e.hops)) [
  | inl far ↦ rw (far, raw, lt→ltb p.hops 256 hh, drop-append dst_len t rest ht) refl
  | inr near ↦ elim (Bool-cases (e.hops == 1)) [
    | inl last ↦ rw (near, last, raw, lt→ltb p.hops 256 hh, drop-append dst_len t rest ht) refl
    | inr here ↦ rw (near, here, raw, lt→ltb p.hops 256 hh) refl
  ]
]

pub next_hash_lem :
    (p : Arrived) (e : PathEntry) (old_hops : ℕ) (t rest : Bytes)
    → InTransport p old_hops t rest
    → length e.next_hop ≡ dst_len
    → get_hashable_part
        (unpack_flags (next_flags p e)).header_type
        (next_flags p e ∷ p.hops ∷ (next_front e t ++ rest))
      ≡ some (bit_and p.flags 0b00001111 ∷ rest)
next_hash_lem p e old_hops t rest (raw, ht, hf, two) hn = elim (Bool-cases (ltb 1 e.hops)) [
  | inl far ↦ rw far (hash_part_2 p.flags p.hops e.next_hop rest two hn)
  | inr near ↦ elim (Bool-cases (e.hops == 1)) [
    | inl last ↦
        let (same, one) = stripped_flags_lem p.flags hf in
        rw (near, last)
          (hash_part_1 (stripped_flags p.flags) p.hops rest one ∙ ap (λ b. some (b ∷ rest)) same)
    | inr here ↦ rw (near, here) (hash_part_2 p.flags p.hops t rest two ht)
  ]
]

-- Forwarded along a path of any length, a packet goes on with the hop count that it has here and
-- the same part after the addresses of transport, and the next node computes the same hash.
pub next_raw-hash :
    (p : Arrived) (e : PathEntry) (old_hops : ℕ) (t rest : Bytes)
    → InTransport p old_hops t rest
    → length e.next_hop ≡ dst_len
    → p.hops < 256
    → (flags : ℕ) × (front : Bytes) × (next_raw p e ≡ some (flags ∷ p.hops ∷ (front ++ rest)))
      × (get_hashable_part (unpack_flags flags).header_type (flags ∷ p.hops ∷ (front ++ rest))
          ≡ get_hashable_part header_2 p.raw)
      × (get_hashable_part header_2 p.raw ≡ some (bit_and p.flags 0b00001111 ∷ rest))
next_raw-hash p e old_hops t rest shape hn hh = (
  next_flags p e,
  next_front e t,
  next_raw_lem p e old_hops t rest shape hh,
  next_hash_lem p e old_hops t rest shape hn ∙ sym (hash_here p old_hops t rest shape),
  hash_here p old_hops t rest shape,
)
