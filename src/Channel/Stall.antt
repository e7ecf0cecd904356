-- ===== src/Channel/Stall.antt =====
-- What Channel.send does on each branch, and what a message that is too big leaves behind.
use reticulum.Prelude.{
  ℕ, ◌+◌, ◌%◌, ◌≤◌, ◌<◌, ◌≡◌, inl, inr, refl, ap, ◌∙◌, Bytes, length, none, some, List, [], ◌∷◌,
  ◌++◌, true, false, lt→ltb, arith,
}
use reticulum.Prelude.Results.{ok, err}
use reticulum.Channel.{Message, Envelope, Channel, seq_modulus}
use reticulum.Channel.Codec.{link_not_ready, too_big, pack_message}
use reticulum.Channel.Ring.{emplace_envelope-cases, tracked_envelope, Has}
use reticulum.Channel.Window.{tx_remove, packet_delivered, rate_round, widen}
use reticulum.Channel.Send.{
  Outlet, outstanding, is_ready_to_send, new_envelope, tx_modify, as_packed, enqueue, send,
}
use reticulum.Channel.Bounds.{IsBounded, packet_delivered-IsBounded}

-- How many envelopes of a ring have no packet.
unfoldable pub unsent : List Envelope → ℕ
unsent [] = 0
unsent (e ∷ ring) = elim e.packet [ none ↦ unsent ring + 1 | some p ↦ unsent ring ]

unsent-append : (front back : List Envelope) → unsent (front ++ back) ≡ unsent front + unsent back
unfolding unsent
unsent-append [] back = omega arith
unsent-append (e ∷ front) back = ground (arith, unsent-append front back)

unsent-tx_remove :
    (packet : ℕ) (ring : List Envelope) → unsent (tx_remove packet ring) ≡ unsent ring
unfolding unsent tx_remove
unsent-tx_remove packet [] = refl
unsent-tx_remove packet (e ∷ ring) = ground (arith, unsent-tx_remove packet ring)

unsent-packed :
    (sequence : ℕ) (raw : Bytes) (ring : List Envelope)
    → unsent (tx_modify sequence (as_packed raw) ring) ≡ unsent ring
unfolding unsent tx_modify
unsent-packed sequence raw [] = refl
unsent-packed sequence raw (e ∷ ring) = ground (arith, unsent-packed sequence raw ring)

unsent-le-outstanding : (o : Outlet) (ring : List Envelope) → unsent ring ≤ outstanding o ring
unfolding unsent outstanding
unsent-le-outstanding o [] = omega arith
unsent-le-outstanding o (e ∷ ring) = ground (arith, unsent-le-outstanding o ring)

unsent-packet_delivered :
    (rtt packet : ℕ) (c : Channel)
    → unsent (packet_delivered rtt packet c).tx_ring ≡ unsent c.tx_ring
unfolding packet_delivered rate_round widen
unsent-packet_delivered rtt packet c = ground (arith, unsent-tx_remove packet c.tx_ring)

unsent-enqueue :
    (m : Message) (c : Channel)
    → ¬ (Has c.next_sequence c.tx_ring)
    → unsent (enqueue m c).tx_ring ≡ unsent c.tx_ring + 1
unfolding enqueue unsent
unsent-enqueue m c fresh =
    let e : Envelope = new_envelope c.next_sequence m in
    elim (emplace_envelope-cases c.next_rx_sequence e c.tx_ring) [
      | inl (old, has) ↦ absurd (fresh has)
      | inr (front, back, split, new) ↦ rw new (
          omega (
            arith,
            unsent-append front (tracked_envelope e ∷ back),
            unsent-append front back,
            ap unsent split,
          ))
    ]

module _ (o : Outlet) (packet : ℕ) (m : Message) (c : Channel) {raw : Bytes}
    (ready : is_ready_to_send o c ≡ true) (packs : pack_message c.next_sequence m ≡ ok raw)
    (big : o.mdu < length raw) where
  refused : send o packet m c ≡ (
    err too_big,
    record (enqueue m c) {
      tx_ring = tx_modify c.next_sequence (as_packed raw) (enqueue m c).tx_ring;
    },
  )
  unfolding send
  refused = rw (ready, packs, lt→ltb _ _ big) refl

  -- A message that is too big for a packet is refused, but its envelope stays in the ring without a
  -- packet, and its sequence number is used up.
  pub send-too_big :
      ¬ (Has c.next_sequence c.tx_ring)
      → ((send o packet m c).0 ≡ err too_big)
        × ((send o packet m c).1.next_sequence ≡ (c.next_sequence + 1) % seq_modulus)
        × (unsent (send o packet m c).1.tx_ring ≡ unsent c.tx_ring + 1)
  send-too_big fresh = rw refused (
    refl,
    unfold enqueue in refl,
    unsent-packed c.next_sequence raw (enqueue m c).tx_ring ∙ unsent-enqueue m c fresh,
  )

pub deliveries : List (ℕ × ℕ) → Channel → Channel
deliveries [] c = c
deliveries ((rtt, packet) ∷ ds) c = deliveries ds (packet_delivered rtt packet c)

unsent-deliveries :
    (ds : List (ℕ × ℕ)) (c : Channel)
    → IsBounded 0 c
    → IsBounded 0 (deliveries ds c) × (unsent (deliveries ds c).tx_ring ≡ unsent c.tx_ring)
unfolding deliveries
unsent-deliveries [] c b = (b, refl)
unsent-deliveries ((rtt, packet) ∷ ds) c b =
    let (b', same) = unsent-deliveries ds _ (packet_delivered-IsBounded 0 rtt packet c b) in
    (b', same ∙ unsent-packet_delivered rtt packet c)

not-ready :
    (o : Outlet) (c : Channel) → c.window ≤ outstanding o c.tx_ring → is_ready_to_send o c ≡ false
unfolding is_ready_to_send
not-ready o c h = ground arith

-- With 48 envelopes that were refused in its ring a channel stays shut: whatever packets are
-- delivered, at whatever round-trip times, every later send is refused and changes nothing.
pub send_stalled :
    (o : Outlet) (packet : ℕ) (m : Message) (ds : List (ℕ × ℕ)) (c : Channel)
    → IsBounded 0 c
    → 48 ≤ unsent c.tx_ring
    → send o packet m (deliveries ds c) ≡ (err link_not_ready, deliveries ds c)
unfolding send
send_stalled o packet m ds c b full =
    let (b', same) = unsent-deliveries ds c b in
    let shut : is_ready_to_send o (deliveries ds c) ≡ false = not-ready o (deliveries ds c) (
      omega
        (arith, same, b'.within, b'.at_most, unsent-le-outstanding o (deliveries ds c).tx_ring)) in
    rw shut refl
