-- ===== src/Packet/Pack.antt =====
-- Packet.pack and Packet.unpack. What a failing call has written to the object stays written.
use reticulum.Prelude.{
  ℕ, ◌+◌, ◌*◌, Bytes, length, take, drop, get_elem?, Option, none, some, [], ◌∷◌, ◌++◌, Bool, true,
  false, ◌&&◌, ◌||◌, ltb, ◌==◌, if◌then◌else◌,
}
use reticulum.Prelude.Results.{ok, err, Exec, gets, ◌>>=◌, ◌>>◌, modify}
use reticulum.Packet.{
  Packet, announce, link_request, proof, header_1, header_2, resource, resource_prf, cache_request,
  keepalive, lr_proof, link_destination, dst_len,
}
use reticulum.Packet.Flags.{unpack_flags}
use reticulum.Packet.Hash.{get_hash}

-- What `pack` and `unpack` raise: `struct.error` or `ValueError` for a value that is no byte, a
-- missing attribute, the two `IOError`s of `pack`, and an index or `ord` past the end of `raw`.
pub data PackError : Type 0 where
  not_a_byte : PackError
  no_link_id : PackError
  no_ciphertext : PackError
  no_transport_id : PackError
  exceeds_mtu : PackError
  too_short : PackError

-- struct.pack("!B", n), and bytes([n])
abbrev pub byte : ℕ → Exec PackError Packet Bytes
byte n p = if ltb n 256 then (ok (n ∷ []), p) else (err not_a_byte, p)

abbrev pub append_header : Bytes → Exec PackError Packet (Unit {0})
append_header bs = modify (λ p. record p { header = p.header ++ bs })

abbrev pub set_ciphertext : Bytes → Exec PackError Packet (Unit {0})
set_ciphertext bs = modify (λ p. record p { ciphertext = some bs })

abbrev pub attribute : {A : Type 0} → PackError → Option A → Exec PackError Packet A
attribute e none p = (err e, p)
attribute e (some a) p = (ok a, p)

-- The packets with a header of type 1 whose payload is sent as it is.
unfoldable pub is_unencrypted : Packet → Bool
is_unencrypted p =
    p.packet_type == announce
    || (p.packet_type == link_request
        || ((p.packet_type == proof && p.context == resource_prf)
            || ((p.packet_type == proof && p.destination.kind == link_destination)
                || (p.context == resource
                    || (p.context == keepalive || p.context == cache_request)))))

unfoldable pub pack_header_1 : Exec PackError Packet (Unit {0})
pack_header_1 = do
  p ← gets (λ p. p)
  append_header p.destination.hash
  set_ciphertext (if is_unencrypted p then p.payload else p.destination.encrypt p.payload)

-- With a header of type 2 only an announce sets the ciphertext.
abbrev pub set_announce : Exec PackError Packet (Unit {0})
set_announce p = if p.packet_type == announce then set_ciphertext p.payload p else (ok tt, p)

unfoldable pub pack_header_2 : Exec PackError Packet (Unit {0})
pack_header_2 = do
  p ← gets (λ p. p)
  transport_id ← attribute no_transport_id p.transport_id
  append_header transport_id
  append_header p.destination.hash
  set_announce

unfoldable pub pack_link_proof : Exec PackError Packet (Unit {0})
pack_link_proof = do
  p ← gets (λ p. p)
  link_id ← attribute no_link_id p.destination.link_id
  append_header link_id
  set_ciphertext p.payload

unfoldable pub pack_body : Exec PackError Packet (Unit {0})
pack_body p =
    if p.context == lr_proof
    then pack_link_proof p
    else if p.header_type == header_1
    then pack_header_1 p
    else if p.header_type == header_2
    then pack_header_2 p
    else (ok tt, p)

abbrev pub check_mtu : Exec PackError Packet (Unit {0})
check_mtu p =
    if ltb p.mtu (length p.raw) then (err exceeds_mtu, p) else (ok tt, record p { packed = true })

-- The context byte, the ciphertext and the test against the MTU. `raw` is written before the test.
unfoldable pub pack_end : Exec PackError Packet (Unit {0})
pack_end = do
  p ← gets (λ p. p)
  context ← byte p.context
  append_header context
  ciphertext ← attribute no_ciphertext p.ciphertext
  modify (λ q. record q { raw = q.header ++ ciphertext })
  check_mtu

-- The part of `unpack` that goes by the header type.
pub unpack_header_2 : Bytes → Exec PackError Packet (Unit {0})
unpack_header_2 raw = do
  modify (λ p. record p {
    transport_id = some (take dst_len (drop 2 raw));
    destination_hash = take dst_len (drop (dst_len + 2) raw);
  })
  context ← attribute too_short (get_elem? raw (2 * dst_len + 2))
  modify (λ p. record p { context = context; payload = drop (2 * dst_len + 3) raw })

pub unpack_header_1 : Bytes → Exec PackError Packet (Unit {0})
unpack_header_1 raw = do
  modify (λ p. record p { transport_id = none; destination_hash = take dst_len (drop 2 raw) })
  context ← attribute too_short (get_elem? raw (dst_len + 2))
  modify (λ p. record p { context = context; payload = drop (dst_len + 3) raw })

pub unpack_rest : ℕ → Bytes → Exec PackError Packet (Unit {0})
unfolding unpack_header_1 unpack_header_2
unpack_rest header_type raw =
    if header_type == header_2 then unpack_header_2 raw else unpack_header_1 raw

-- The flags and the hops, at the start of a new header.
unfoldable pub pack_start : Exec PackError Packet (Unit {0})
pack_start = do
  modify (λ p. record p { destination_hash = p.destination.hash; header = [] })
  p ← gets (λ p. p)
  flags ← byte p.flags
  append_header flags
  hops ← byte p.hops
  append_header hops

module _ (sha256 : Bytes → Bytes) where
  unfoldable pub update_hash : Exec PackError Packet (Unit {0})
  update_hash = do
    p ← gets (λ p. p)
    hash ← attribute too_short (get_hash sha256 p.header_type p.raw)
    modify (λ q. record q { packet_hash = some hash })

  unfoldable pub pack : Exec PackError Packet (Unit {0})
  pack = do pack_start; pack_body; pack_end; update_hash

  -- The body of the `try` of `unpack`.
  pub unpack_fields : Exec PackError Packet (Unit {0})
  unfolding update_hash unpack_rest
  unpack_fields = do
    raw ← gets (λ p. p.raw)
    flags ← attribute too_short (get_elem? raw 0)
    modify (λ p. record p { flags = flags })
    hops ← attribute too_short (get_elem? raw 1)
    modify (λ p. record p { hops = hops })
    let f = unpack_flags flags
    modify (λ p. record p {
      header_type = f.header_type;
      context_flag = f.context_flag;
      transport_type = f.transport_type;
      destination_type = f.destination_type;
      packet_type = f.packet_type;
    })
    unpack_rest f.header_type raw
    modify (λ p. record p { packed = false })
    update_hash

  -- Whether the packet was well formed: an exception is caught and the answer is `false`.
  unfoldable pub unpack : Packet → Bool × Packet
  unfolding unpack_fields
  unpack p = let (r, p') = unpack_fields p in elim r [ ok _ ↦ (true, p') | err _ ↦ (false, p') ]
