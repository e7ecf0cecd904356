-- ===== src/Transport/Outbound/OnPath.antt =====
-- What Transport.outbound does with a packet whose destination is in the path table.
use reticulum.Prelude.{
  ℕ, ltb→lt, ◌≢◌, ==_iff, arith, ◌<◌, ◌≡◌, ◌⊎◌, inl, inr, refl, Bytes, ◌∷◌, ◌++◌, length, Bool,
  Bool-cases, true, false, ◌&&◌, ◌||◌, some, ltb, ◌==◌, if◌then◌else◌,
}
use reticulum.Packet.{header_1, header_2, dst_len}
use reticulum.Packet.Hash.{get_hash}
use reticulum.Transport.Header.{insert_transport, transport_flags, get_hash-insert_transport}
use reticulum.Transport.Paths.{PathEntry}
use reticulum.Transport.Outbound.{
  Outgoing, Port, Outbox, transmit_on, path_of, send_inserted, send_on_path,
}
use reticulum.Transport.Outbound.Broadcast.{outbound}

-- The next node has to carry the packet on.
abbrev needs_transport : PathEntry → Outbox → Bool
needs_transport e s = ltb 1 e.hops || ((e.hops == 1) && s.hashes.is_client)

-- More than one hop away, or one hop away from a client of a shared instance.
abbrev pub NeedsTransport : PathEntry → Outbox → Type 0
NeedsTransport e s = (1 < e.hops) ⊎ ((e.hops ≡ 1) × (s.hashes.is_client ≡ true))

needs_transport_lem :
    (hops : ℕ) (is_client : Bool)
    → let needed : Bool = ltb 1 hops || ((hops == 1) && is_client) in
      let Needed : Type 0 = (1 < hops) ⊎ ((hops ≡ 1) × (is_client ≡ true)) in
      ((needed ≡ true) × Needed) ⊎ ((needed ≡ false) × ¬ Needed)
needs_transport_lem hops true = elim (Bool-cases (ltb 1 hops)) [
  | inl far ↦ inl (rw far refl, inl (ltb→lt 1 hops far))
  | inr near ↦ elim (Bool-cases (hops == 1)) [
    | inl one ↦ inl (rw (near, one) refl, inr ((==_iff hops 1).0 one, refl))
    | inr other ↦ inr (rw (near, other) refl, λ n. ground arith)
  ]
]
needs_transport_lem hops false = elim (Bool-cases (ltb 1 hops)) [
  | inl far ↦ inl (rw far refl, inl (ltb→lt 1 hops far))
  | inr near ↦ inr (ground arith, λ n. ground arith)
]

-- A copy of the packet goes to the next node, under the hash that the packet has here.
abbrev pub Inserted : (Bytes → Bytes) → Outgoing → ℕ → Bytes → PathEntry → Outbox → Outbox → Type 0
Inserted sha256 p hops rest e s s' =
    (raw : Bytes) × (s'.transmitted ≡ (e.interface, raw) ∷ s.transmitted)
    × (raw ≡ transport_flags p.flags ∷ hops ∷ (e.next_hop ++ rest))
    × (get_hash sha256 header_2 raw ≡ get_hash sha256 header_1 p.raw)

choose_lem {ℓ} :
    {A : Type ℓ} (a b : Bool) (x y : A)
    → (((a || b) ≡ true) → (if a then x else if b then x else y) ≡ x)
      × (((a || b) ≡ false) → (if a then x else if b then x else y) ≡ y)
choose_lem true b x y = (λ h. refl, λ h. absurd (cc h))
choose_lem false true x y = (λ h. refl, λ h. absurd (cc h))
choose_lem false false x y = (λ h. absurd (cc h), λ h. refl)

module _ (sha256 : Bytes → Bytes) (now : ℕ) (wait_time : Port → Bytes → ℕ) where
  send_inserted-Inserted :
      (p : Outgoing) (hops : ℕ) (rest : Bytes) (e : PathEntry) (s : Outbox)
      → p.raw ≡ p.flags ∷ hops ∷ rest
      → p.flags < 256
      → length e.next_hop ≡ dst_len
      → ((p.header_type == header_1) ≡ true)
      → ((send_inserted now p e s).0 ≡ true)
        × Inserted sha256 p hops rest e s (send_inserted now p e s).1
  unfolding send_inserted transmit_on insert_transport
  send_inserted-Inserted p hops rest e s shape hf hn one =
      let copy : Bytes = insert_transport p.flags e.next_hop p.raw in
      let copied : copy ≡ transport_flags p.flags ∷ hops ∷ (e.next_hop ++ rest) = rw shape refl in
      let kept : get_hash sha256 header_2 copy ≡ get_hash sha256 header_1 p.raw =
        rw shape (get_hash-insert_transport sha256 p.flags hops hops e.next_hop rest hf hn) in
      rw (send_inserted, one) (refl, (copy, refl, copied, kept))

  send_on_path_lem :
      (p : Outgoing) (e : PathEntry) (s : Outbox)
      → (needs_transport e s ≡ true → send_on_path now p e s ≡ send_inserted now p e s)
        × (needs_transport e s ≡ false
            → send_on_path now p e s ≡ (true, transmit_on p e.interface p.raw s))
  unfolding send_on_path
  send_on_path_lem p e s =
      choose_lem (ltb 1 e.hops) ((e.hops == 1) && s.hashes.is_client) (send_inserted now p e s)
        (true, transmit_on p e.interface p.raw s)

  -- For a packet that is no announce and not for a PLAIN or GROUP destination, and whose destination
  -- the path table has, exactly one of three things happens. The packet goes out once as it is, if the
  -- destination is one hop away or nearer and this node is no client one hop away. Else it goes out
  -- once to the next hop, if its header is of type 1, with the new flags and the next hop in front of
  -- the rest, under the same hash. Else nothing goes out or changes. The raw packet is its flags, a
  -- byte, the hops and the rest, and the next hop has 16 bytes.
  pub outbound-OnPath :
      (is_local : Bool) (p : Outgoing) (hops : ℕ) (rest : Bytes) (e : PathEntry) (s : Outbox)
      → p.raw ≡ p.flags ∷ hops ∷ rest
      → p.flags < 256
      → length e.next_hop ≡ dst_len
      → path_of p s ≡ some e
      → ((¬ (NeedsTransport e s))
          × (outbound now wait_time is_local p s ≡ (true, transmit_on p e.interface p.raw s)))
        ⊎ ((NeedsTransport e s
              × (p.header_type ≡ header_1)
              × ((outbound now wait_time is_local p s).0 ≡ true)
              × Inserted sha256 p hops rest e s (outbound now wait_time is_local p s).1)
            ⊎ (NeedsTransport e s
                × (p.header_type ≢ header_1)
                × (outbound now wait_time is_local p s ≡ (false, s))))
  unfolding outbound send_inserted
  outbound-OnPath is_local p hops rest e s shape hf hn found =
      let (indirect, direct) = send_on_path_lem p e s in
      elim (needs_transport_lem e.hops s.hashes.is_client) [
        | inr (near, close) ↦ inl (close, rw (outbound, found) (direct near))
        | inl (far, needs) ↦ inr (elim (Bool-cases (p.header_type == header_1)) [
          | inl one ↦
              let (sent, copy) = send_inserted-Inserted p hops rest e s shape hf hn one in
              inl (
                needs,
                (==_iff p.header_type header_1).0 one,
                rw (outbound, found, indirect far) sent,
                rw (outbound, found, indirect far) copy,
              )
          | inr other ↦ inr (
            needs,
            λ e'. absurd (cc (other, (==_iff p.header_type header_1).1 e')),
            rw (outbound, found, indirect far) (rw (send_inserted, other) refl),
          )
        ])
      ]
