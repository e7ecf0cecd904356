-- ===== src/Channel/Order.antt =====
-- Messages are handed on in the order of their sequence numbers, with none left out; and which
-- sequence numbers the guard of Channel._receive lets in.
use reticulum.Prelude.{
  ℕ, ◌+◌, ◌-◌, ◌%◌, ◌≤◌, ◌<◌, ◌≡◌, ◌⊎◌, ◌↔◌, inl, inr, refl, ap, sym, Bool-cases, List, [], ◌∷◌,
  ◌++◌, All, Bytes, true, false, some, arith,
}
use reticulum.Prelude.Results.{ok, err, Result-cases}
use reticulum.Channel.{Message, Envelope, Channel, seq_modulus}
use reticulum.Channel.Codec.{ChannelError, unpack}
use reticulum.Channel.Ring.{emplace_envelope-cases, tracked_envelope}
use reticulum.Channel.Receive.{
  collect, Received, deliver, received_envelope, nothing_received, receive_envelope, receive,
  is_valid_sequence,
}
use reticulum.Channel.Collected.{
  Consecutive, In, collect-Consecutive, In-suffix, collect-In, HasMessage, messages, deliver_lem,
  deliver-HasMessage, All-In, All-split, In-split, All-map,
}

-- Where a delivered envelope comes from: it was held in the ring, or it is the received packet.
abbrev pub Origin : Channel → Bytes → Envelope → Type 0
Origin c raw e =
    In e c.rx_ring
    ⊎ ((m : Message) × (e.message ≡ some m) × (unpack c.message_factories raw ≡ ok (e.sequence, m)))

-- What is delivered on one packet.
abbrev pub InOrder : Channel → Bytes → Received → Type 0
InOrder c raw r =
    (es : List Envelope) × Consecutive c.next_rx_sequence es r.channel.next_rx_sequence
    × All (Origin c raw) es
    × (r.delivered ≡ messages es)
    × All HasMessage r.channel.rx_ring

module _ (raw : Bytes) (c : Channel) (ring_ok : All HasMessage c.rx_ring) where
  nothing-InOrder : InOrder c raw (nothing_received c)
  nothing-InOrder = ([], refl, tt, refl, ring_ok)

  module _ (sequence : ℕ) (m : Message)
      (unpacks : unpack c.message_factories raw ≡ ok (sequence, m)) where
    collected-InOrder :
        (ring : List Envelope)
        → All HasMessage ring
        → ((x : Envelope) → In x ring → Origin c raw x)
        → InOrder c raw (
            deliver (collect ring ring c.next_rx_sequence).0 (
              nothing_received (record c {
                rx_ring = ring;
                next_rx_sequence = (collect ring ring c.next_rx_sequence).1;
              })))
    collected-InOrder ring good origin =
        let found : List Envelope = (collect ring ring c.next_rx_sequence).0 in
        let inside = collect-In ring ring c.next_rx_sequence (unfold In-suffix in λ x h. h) in
        let (same, next) =
          deliver_lem found _
            (All-map _ HasMessage found (λ x i. All-In HasMessage ring x good i) inside) in
        (
          found,
          rw next (collect-Consecutive ring ring c.next_rx_sequence),
          All-map _ (Origin c raw) found origin inside,
          same,
          deliver-HasMessage found _ good,
        )

    receive_envelope-InOrder : InOrder c raw (receive_envelope (received_envelope sequence m raw) c)
    unfolding receive_envelope
    receive_envelope-InOrder =
        let e : Envelope = received_envelope sequence m raw in
        elim (emplace_envelope-cases c.next_rx_sequence e c.rx_ring) [
          | inl (old, has) ↦ rw old nothing-InOrder
          | inr (front, back, split, new) ↦ rw new (
              collected-InOrder (front ++ tracked_envelope e ∷ back)
                (All-split HasMessage front back _ (rw split at ring_ok) (m, refl))
                (λ x i. elim (In-split front back _ x i) [
                  | inl j ↦ inl (rw split j)
                  | inr same ↦
                      inr
                        (m, ap (λ (y : Envelope). y.message) (sym same), rw unpacks (ground arith))
                ]))
        ]

  receive_valid :
      (sequence : ℕ) (m : Message)
      → unpack c.message_factories raw ≡ ok (sequence, m)
      → is_valid_sequence c.next_rx_sequence sequence ≡ true
      → receive raw c ≡ receive_envelope (received_envelope sequence m raw) c
  unfolding receive
  receive_valid sequence m e valid = rw (e, receive) (rw valid)

  receive_stale :
      (sequence : ℕ) (m : Message)
      → unpack c.message_factories raw ≡ ok (sequence, m)
      → is_valid_sequence c.next_rx_sequence sequence ≡ false
      → receive raw c ≡ nothing_received c
  unfolding receive
  receive_stale sequence m e stale = rw (e, receive) (rw stale)

  receive_err :
      (x : ChannelError)
      → unpack c.message_factories raw ≡ err x
      → receive raw c ≡ nothing_received c
  unfolding receive
  receive_err x e = rw (e, receive)

  -- Whatever packet arrives, the messages that are handed to the handlers are those of envelopes
  -- with consecutive sequence numbers (modulo 2 ^ 16), from the next expected number on: each held
  -- in the ring or just received, none skipped or out of turn, and the next expected number is the
  -- one after the last. The ring keeps only envelopes that carry a message.
  pub receive-InOrder : InOrder c raw (receive raw c)
  receive-InOrder = elim (Result-cases (unpack c.message_factories raw)) [
    | inl ((sequence, m), e) ↦ elim (Bool-cases (is_valid_sequence c.next_rx_sequence sequence)) [
      | inl valid ↦ rw (receive_valid sequence m e valid) (receive_envelope-InOrder sequence m e)
      | inr stale ↦ rw (receive_stale sequence m e stale) nothing-InOrder
    ]
    | inr (x, e) ↦ rw (receive_err x e) nothing-InOrder
  ]

-- How far `sequence` is ahead of `next_rx`, counted modulo 2 ^ 16.
abbrev pub ahead : ℕ → ℕ → ℕ
ahead next_rx sequence = (sequence + seq_modulus - next_rx) % seq_modulus

-- A sequence number below the next expected one passes the guard exactly if it is at most
-- WINDOW_MAX ahead across the wrap; one at or above it passes however far ahead it is.
pub is_valid_sequence-ahead :
    (next_rx sequence : ℕ)
    → next_rx < seq_modulus
    → sequence < seq_modulus
    → (sequence < next_rx
        → (is_valid_sequence next_rx sequence ≡ true) ↔ (ahead next_rx sequence ≤ 48))
      × (next_rx ≤ sequence → is_valid_sequence next_rx sequence ≡ true)
unfolding is_valid_sequence
is_valid_sequence-ahead next_rx sequence hn hs = ground arith
