-- ===== src/Packet/Wire.antt =====
-- What `Packet.pack` writes, on every branch.
use mathlib.Core.List.{append_assoc}
use reticulum.Prelude.{
  ℕ, ◌<◌, ◌≡◌, refl, inl, inr, Option-cases, Bytes, length, Option, none, some, [], ◌∷◌, ◌++◌, Bool,
  true, false, ltb, ◌==◌, arith, if◌then◌else◌,
}
use reticulum.Prelude.Results.{Result, ok, err, continue}
use reticulum.Packet.{Packet, announce, header_1, lr_proof}
use reticulum.Packet.Hash.{get_hash}
use reticulum.Packet.Pack.{
  PackError, no_transport_id, exceeds_mtu, pack_header_1, pack_header_2, pack_link_proof, pack,
  update_hash, pack_start, pack_body, pack_end, is_unencrypted,
}

-- The bytes of a packet: flags, hops, addresses, context and ciphertext.
abbrev pub wire : ℕ → ℕ → Bytes → ℕ → Bytes → Bytes
wire flags hops address context ciphertext = flags ∷ hops ∷ (address ++ context ∷ ciphertext)

-- The addresses that `pack` writes: those of a link proof, of a header of type 1, and of type 2.
abbrev pub address : Packet → Option Bytes
address p =
    if p.context == lr_proof
    then p.destination.link_id
    else if p.header_type == header_1
    then some p.destination.hash
    else elim p.transport_id [ none ↦ none | some t ↦ some (t ++ p.destination.hash) ]

-- The ciphertext that `pack` sends. A header of type 2 encrypts nothing: unless the packet is an
-- announce, it sends what an earlier call has left on the object.
abbrev pub sent_ciphertext : Packet → Option Bytes
sent_ciphertext p =
    if p.context == lr_proof
    then some p.payload
    else if p.header_type == header_1
    then some (if is_unencrypted p then p.payload else p.destination.encrypt p.payload)
    else if p.packet_type == announce
    then some p.payload
    else p.ciphertext

pack_link_proof_lem :
    (p : Packet) (a : Bytes)
    → p.destination.link_id ≡ some a
    → pack_link_proof p ≡ (ok tt, record p { header = p.header ++ a; ciphertext = some p.payload })
unfolding pack_link_proof
pack_link_proof_lem p a e = ground arith

pack_header_2_lem :
    (p : Packet) (t : Bytes)
    → p.transport_id ≡ some t
    → pack_header_2 p ≡ (
      ok tt,
      record p {
        header = (p.header ++ t) ++ p.destination.hash;
        ciphertext = if p.packet_type == announce then some p.payload else p.ciphertext;
      },
    )
unfolding pack_header_2
pack_header_2_lem p t e = ground arith

pack_header_2-none :
    (p : Packet) → p.transport_id ≡ none → pack_header_2 p ≡ (err no_transport_id, p)
unfolding pack_header_2
pack_header_2-none p e = ground arith

pack_body_lem :
    (p : Packet) (a c : Bytes)
    → p.header_type < 2
    → address p ≡ some a
    → sent_ciphertext p ≡ some c
    → pack_body p ≡ (ok tt, record p { header = p.header ++ a; ciphertext = some c })
unfolding pack_body pack_header_1
pack_body_lem p a c types ea ec = elim (Option-cases p.transport_id) [
  | inl e ↦ ground (arith, pack_link_proof_lem p a, pack_header_2-none p e)
  | inr (t, e) ↦ ground (
    arith,
    pack_link_proof_lem p a,
    pack_header_2_lem p t e,
    append_assoc p.header t p.destination.hash,
  )
]

pack_start_lem :
    (p : Packet)
    → p.flags < 256
    → p.hops < 256
    → pack_start p
      ≡ (ok tt, record p { destination_hash = p.destination.hash; header = p.flags ∷ p.hops ∷ [] })
unfolding pack_start
pack_start_lem p hf hh = ground arith

-- What `pack` has written when it comes to the test against the MTU.
abbrev pub sealed : Packet → Bytes → Bytes → Packet
sealed p a c = record p {
  destination_hash = p.destination.hash;
  header = p.flags ∷ p.hops ∷ (a ++ p.context ∷ []);
  ciphertext = some c;
  raw = wire p.flags p.hops a p.context c;
}

pack_end_lem :
    (p : Packet) (a c : Bytes)
    → p.context < 256
    → pack_end (record p {
      destination_hash = p.destination.hash;
      header = p.flags ∷ p.hops ∷ a;
      ciphertext = some c;
    })
      ≡ (if ltb p.mtu (length (wire p.flags p.hops a p.context c))
          then (err exceeds_mtu, sealed p a c)
          else (ok tt, record (sealed p a c) { packed = true }))
unfolding pack_end
pack_end_lem p a c hc = ground (arith, append_assoc a (p.context ∷ []) c)

-- The outcome of the test against the MTU, without and with the hash of the packet.
abbrev tested : Bool → Packet → Bytes → Bytes → Result PackError (Unit {0}) × Packet
tested too_big p a c =
    if too_big
    then (err exceeds_mtu, sealed p a c)
    else (ok tt, record (sealed p a c) { packed = true })

module _ (sha256 : Bytes → Bytes) where
  abbrev pub outcome : Bool → Packet → Bytes → Bytes → Result PackError (Unit {0}) × Packet
  outcome too_big p a c = if too_big then (err exceeds_mtu, sealed p a c) else (
    ok tt,
    record (sealed p a c) {
      packed = true;
      packet_hash = get_hash sha256 p.header_type (wire p.flags p.hops a p.context c);
    },
  )

  finish :
      (p : Packet) (a c : Bytes) (too_big : Bool)
      → continue (tested too_big p a c).0 (λ _. update_hash sha256) (tested too_big p a c).1
        ≡ outcome too_big p a c
  unfolding update_hash get_hash
  finish p a c true = refl
  finish p a c false = refl

  -- `pack` writes flags, hops, addresses, context and ciphertext, in that order. If that fits the
  -- MTU it marks the packet as packed and stores its hash; otherwise it raises, with `raw` written.
  pub pack-wire :
      (p : Packet) (a c : Bytes)
      → p.header_type < 2
      → p.flags < 256
      → p.hops < 256
      → p.context < 256
      → address p ≡ some a
      → sent_ciphertext p ≡ some c
      → pack sha256 p ≡ outcome (ltb p.mtu (length (wire p.flags p.hops a p.context c))) p a c
  unfolding pack is_unencrypted
  pack-wire p a c ht hf hh hc ea ec =
      let q : Packet = record p {
        destination_hash = p.destination.hash;
        header = p.flags ∷ p.hops ∷ [];
      } in
      rw (pack_start_lem p hf hh, pack_body_lem q a c ht ea ec, pack_end_lem p a c hc)
        (finish p a c (ltb p.mtu (length (wire p.flags p.hops a p.context c))))
