-- ===== src/Channel/Bounds.antt =====
-- The bounds of a channel's window under any deliveries and timeouts.
use reticulum.Prelude.{
  ℕ, ◌+◌, ◌≤◌, ◌<◌, ◌≡◌, Option-cases, inl, inr, List, [], ◌∷◌, Bool, true, false, arith,
}
use reticulum.Channel.{Envelope, Channel}
use reticulum.Channel.Window.{
  init, rate_round, widen, narrow, tx_find, packet_delivered, packet_timeout, retry_envelope,
}

-- `gap` is what the window's bounds are kept apart by.
pub record IsBounded (gap : ℕ) (c : Channel) : Type 0 where
  pub open_window : 1 ≤ c.window
  pub within : c.window ≤ c.window_max
  pub at_most : c.window_max ≤ 48
  pub floor : 1 ≤ c.window_min
  pub apart : c.window_min + gap ≤ c.window_max
  pub flexible : gap ≤ c.window_flexibility
  pub small : gap ≤ 4

rate_round-IsBounded :
    (gap rtt : ℕ) (c : Channel) → IsBounded gap c → IsBounded gap (rate_round rtt c)
unfolding rate_round
rate_round-IsBounded gap rtt c b = ground arith

widen-IsBounded : (gap : ℕ) (c : Channel) → IsBounded gap c → IsBounded gap (widen c)
unfolding widen
widen-IsBounded gap c b = ground arith

narrow-IsBounded : (gap : ℕ) (c : Channel) → IsBounded gap c → IsBounded gap (narrow c)
unfolding narrow
narrow-IsBounded gap c b = ground arith

ring-IsBounded :
    (gap : ℕ) (c : Channel) (ring : List Envelope)
    → IsBounded gap c
    → IsBounded gap (record c { tx_ring = ring })
ring-IsBounded gap c ring b = ground arith

pub packet_delivered-IsBounded :
    (gap rtt packet : ℕ) (c : Channel)
    → IsBounded gap c
    → IsBounded gap (packet_delivered rtt packet c)
unfolding packet_delivered
packet_delivered-IsBounded gap rtt packet c b = elim (Option-cases (tx_find packet c.tx_ring)) [
  | inl none_found ↦ rw (none_found, packet_delivered) b
  | inr (e, found) ↦
      rw (found, packet_delivered)
        (rate_round-IsBounded gap rtt _ (widen-IsBounded gap _ (ring-IsBounded gap c _ b)))
]

retry_envelope-IsBounded :
    (gap packet : ℕ) (e : Envelope) (c : Channel)
    → IsBounded gap c
    → IsBounded gap (retry_envelope packet e c).0
unfolding retry_envelope
retry_envelope-IsBounded gap packet e c b = ground arith

packet_timeout-IsBounded :
    (gap packet : ℕ) (delivered : Bool) (c : Channel)
    → IsBounded gap c
    → IsBounded gap (packet_timeout delivered packet c).0
unfolding packet_timeout
packet_timeout-IsBounded gap packet true c b = b
packet_timeout-IsBounded gap packet false c b = elim (Option-cases (tx_find packet c.tx_ring)) [
  | inl none_found ↦ rw none_found b
  | inr (e, found) ↦ rw found (retry_envelope-IsBounded gap packet e c b)
]

pub data Event : Type 0 where
  delivery : ℕ → ℕ → Event
  timeout : Bool → ℕ → Event

unfoldable pub step : Event → Channel → Channel
step (delivery rtt packet) c = packet_delivered rtt packet c
step (timeout delivered packet) c = (packet_timeout delivered packet c).0

unfoldable pub run : List Event → Channel → Channel
run [] c = c
run (e ∷ es) c = run es (step e c)

-- Deliveries at any round-trip times and timeouts, in any order, keep the window at least 1, within
-- its maximum, and that within 48; the bounds of the window stay at least `gap` apart.
pub run-IsBounded :
    (gap : ℕ) (es : List Event) (c : Channel) → IsBounded gap c → IsBounded gap (run es c)
unfolding run step
run-IsBounded gap [] c b = b
run-IsBounded gap (delivery rtt packet ∷ es) c b =
    run-IsBounded gap es _ (packet_delivered-IsBounded gap rtt packet c b)
run-IsBounded gap (timeout delivered packet ∷ es) c b =
    run-IsBounded gap es _ (packet_timeout-IsBounded gap packet delivered c b)

-- A new channel is within the bounds: with a gap of 3 between its own, and of 0 on a slow link.
pub init-IsBounded :
    (rtt : ℕ) → (rtt ≤ 1450000 → IsBounded 3 (init rtt)) × (1450000 < rtt → IsBounded 0 (init rtt))
unfolding init
init-IsBounded rtt = ground arith

-- From a new channel on a link that is not slow, the bounds of the window are 3 apart at first,
-- though the flexibility is 4, and at least 3 whatever is delivered or times out.
pub init-gap :
    (rtt : ℕ) (es : List Event)
    → rtt ≤ 1450000
    → ((init rtt).window_min + 3 ≡ (init rtt).window_max)
      × ((init rtt).window_flexibility ≡ 4)
      × ((run es (init rtt)).window_min + 3 ≤ (run es (init rtt)).window_max)
unfolding init
init-gap rtt es h =
    (ground arith, ground arith, (run-IsBounded 3 es (init rtt) ((init-IsBounded rtt).0 h)).apart)
