-- ===== src/Transport/Forward/Links.antt =====
-- A link request through Transport.inbound, and the packets of its link after it.
use reticulum.Prelude.{
  ℕ, ◌<◌, ◌≤◌, ◌≡◌, inl, inr, refl, sym, ap, ◌∙◌, bit_and, Bytes, length, ◌∷◌, ◌++◌, Option-cases,
  none, some, take,
}
use mathlib.Core.List.{append_assoc}
use reticulum.Packet.{header_2, dst_len, link_request}
use reticulum.Packet.Flags.{unpack_flags}
use reticulum.Packet.Hash.{truncated_hash}
use reticulum.Link.Signalling.{lr_start}
use reticulum.Transport.Paths.{PathEntry}
use reticulum.Transport.Forward.{Arrived, Medium, Routes, send_on}
use reticulum.Transport.Forward.Path.{
  next_raw, clamp_request, link_id_from_lr_packet, link_entry, touch_path, forward_request, forward,
}
use reticulum.Transport.Forward.Request.{
  InTransport, next_flags, next_front, next_raw_lem, next_hash_lem, hash_here,
}
use reticulum.Transport.Forward.Clamp.{MtuFits, SameKeys, clamp_request-GoesOn, link_id_lem}

module _ (sha256 : Bytes → Bytes) (media : ℕ → Medium) (timeout : ℕ → ℕ → ℕ) (identity : Bytes)
    (now : ℕ) where
  -- The state that a forwarded request leaves.
  abbrev pub after_request : Arrived → PathEntry → Bytes → Bytes → Routes → Routes
  after_request p e raw link_id r =
      touch_path sha256 media timeout identity now p.destination_hash e (
        send_on e.interface raw (record r {
          link_table = (link_id, link_entry sha256 media timeout identity now p e) ∷ r.link_table;
        }))

  forward_request-after :
      (p : Arrived) (e : PathEntry) (raw : Bytes) (r s : Routes)
      → forward_request sha256 media timeout identity now p e raw r ≡ some s
      → (new link_id : Bytes) × (clamp_request
            (media p.receiving_interface).hw_mtu
            (media e.interface)
            p
            raw
          ≡ some new)
        × (link_id_from_lr_packet sha256 p.header_type p.raw p.payload ≡ some link_id)
        × (s ≡ after_request p e new link_id r)
  unfolding forward_request
  forward_request-after p e raw r s h =
      elim (Option-cases
        (clamp_request (media p.receiving_interface).hw_mtu (media e.interface) p raw)) [
          | inl stuck ↦
              let dropped : none ≡ some s = rw (forward_request, stuck) at h in absurd (cc dropped)
          | inr (new, c) ↦
              elim (Option-cases (link_id_from_lr_packet sha256 p.header_type p.raw p.payload)) [
                | inl stuck ↦
                    let dropped : none ≡ some s = rw (forward_request, c, stuck) at h in
                    absurd (cc dropped)
                | inr (link_id, i) ↦
                    let kept : some (after_request p e new link_id r) ≡ some s =
                      rw (forward_request, c, i) at h in
                    (new, link_id, c, i, cc)
              ]
        ]

  -- What the next node gets of a link request: its own header before `core`, the rest of the hash
  -- part before the payload.
  abbrev pub Received : Arrived → PathEntry → Bytes → Bytes → Bytes → Type 0
  Received p e core new link_id =
      (flags : ℕ) × (front payload : Bytes) × (new ≡ flags ∷ p.hops ∷ (front ++ (core ++ payload)))
      × (link_id_from_lr_packet sha256 (unpack_flags flags).header_type new payload ≡ some link_id)
      × SameKeys p.payload payload
      × MtuFits (media p.receiving_interface).hw_mtu (media e.interface) payload

  link_id-here :
      (p : Arrived) (old_hops : ℕ) (t core link_id : Bytes)
      → InTransport p old_hops t (core ++ p.payload)
      → p.header_type ≡ header_2
      → lr_start ≤ length p.payload
      → link_id_from_lr_packet sha256 p.header_type p.raw p.payload ≡ some link_id
      → link_id
        ≡ truncated_hash sha256 ((bit_and p.flags 0b00001111 ∷ core) ++ take lr_start p.payload)
  link_id-here p old_hops t core link_id shape two long h =
      let computed =
        link_id_lem sha256 header_2 p.raw (bit_and p.flags 0b00001111 ∷ core) p.payload
          (hash_here p old_hops t (core ++ p.payload) shape) long in
      let mine : some link_id
          ≡ some (
              truncated_hash sha256
                ((bit_and p.flags 0b00001111 ∷ core) ++ take lr_start p.payload)) =
        sym (rw two at h) ∙ computed in
      cc

  received_lem :
      (p : Arrived) (e : PathEntry) (old_hops : ℕ) (t core new link_id : Bytes)
      → InTransport p old_hops t (core ++ p.payload)
      → p.header_type ≡ header_2
      → length e.next_hop ≡ dst_len
      → lr_start ≤ length p.payload
      → p.hops < 256
      → clamp_request
          (media p.receiving_interface).hw_mtu
          (media e.interface)
          p
          (next_flags p e ∷ p.hops ∷ (next_front e t ++ (core ++ p.payload)))
        ≡ some new
      → link_id_from_lr_packet sha256 p.header_type p.raw p.payload ≡ some link_id
      → Received p e core new link_id
  received_lem p e old_hops t core new link_id shape two hn long hh c i =
      let flags : ℕ = next_flags p e in
      let front : Bytes = next_front e t in
      let before : Bytes = flags ∷ p.hops ∷ (front ++ core) in
      let split : (b : Bytes) → before ++ b ≡ flags ∷ p.hops ∷ (front ++ (core ++ b)) =
        λ b. ap (λ m. flags ∷ p.hops ∷ m) (append_assoc front core b) in
      let (payload, sent, keys, fits) =
        clamp_request-GoesOn (media p.receiving_interface).hw_mtu (media e.interface) p before new
          long
          (ap (clamp_request (media p.receiving_interface).hw_mtu (media e.interface) p)
              (split p.payload)
            ∙ c) in
      let renewed : Arrived = record p { raw = p.flags ∷ old_hops ∷ (t ++ (core ++ payload)) } in
      let part =
        next_hash_lem renewed e old_hops t (core ++ payload) (refl, shape.1, shape.2, shape.3) hn in
      let computed =
        link_id_lem sha256 (unpack_flags flags).header_type
          (flags ∷ p.hops ∷ (front ++ (core ++ payload))) (bit_and p.flags 0b00001111 ∷ core)
          payload part keys.0 in
      let mine = link_id-here p old_hops t core link_id shape two long i in
      (
        flags,
        front,
        payload,
        sent ∙ split payload,
        ap (λ b. link_id_from_lr_packet sha256 (unpack_flags flags).header_type b payload)
              (sent ∙ split payload)
            ∙ computed
            ∙ ap (λ k. some (truncated_hash sha256 ((bit_and p.flags 0b00001111 ∷ core) ++ k)))
                keys.1
            ∙ ap some (sym mine),
        keys,
        fits,
      )

  forward-request :
      (p : Arrived) (e : PathEntry) (raw : Bytes) (r s : Routes)
      → p.packet_type ≡ link_request
      → next_raw p e ≡ some raw
      → forward sha256 media timeout identity now p e r ≡ some s
      → forward_request sha256 media timeout identity now p e raw r ≡ some s
  unfolding forward
  forward-request p e raw r s kind made h = rw (forward, made, kind) at h

  -- A link request with a header of type 2 and a hop count below 256 that a node carries on enters the link table under the id that the next node
  -- computes for the request that it gets: clamping the MTU, another header and another hop count
  -- leave the id as it is. The two keys go on unchanged, and the MTU in the request fits both
  -- interfaces.
  pub forward-link_id :
      (p : Arrived) (e : PathEntry) (old_hops : ℕ) (t core : Bytes) (r s : Routes)
      → p.packet_type ≡ link_request
      → InTransport p old_hops t (core ++ p.payload)
      → p.header_type ≡ header_2
      → length e.next_hop ≡ dst_len
      → lr_start ≤ length p.payload
      → p.hops < 256
      → forward sha256 media timeout identity now p e r ≡ some s
      → (new link_id : Bytes) × (s ≡ after_request p e new link_id r)
        × Received p e core new link_id
  forward-link_id p e old_hops t core r s kind shape two hn long hh h =
      let raw : Bytes = next_flags p e ∷ p.hops ∷ (next_front e t ++ (core ++ p.payload)) in
      let made : next_raw p e ≡ some raw =
        next_raw_lem p e old_hops t (core ++ p.payload) shape hh in
      let (new, link_id, c, i, left) =
        forward_request-after p e raw r s (forward-request p e raw r s kind made h) in
      (new, link_id, left, received_lem p e old_hops t core new link_id shape two hn long hh c i)
