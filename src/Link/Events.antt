-- ===== src/Link/Events.antt =====
-- A link under any events, and what holds of it between two of them.
use reticulum.Prelude.{ℕ, ◌+◌, ◌≤◌, ◌≡◌, ◌≢◌, Bytes, List, [], ◌∷◌, Option, some, Bool, true, arith}
use reticulum.Link.{Link, Status, pending, handshaking, active, stale, closed, timeout}
use reticulum.Link.Keys.{World, encrypt}
use reticulum.Link.Establish.{Identity, validate_proof}
use reticulum.Link.Closing.{link_closed, teardown, watchdog, Arrival, receive, since_inbound}

-- A proof comes in, a packet comes in, a round of the watchdog, a teardown, and an encryption.
pub data Event : Type 0 where
  proves : ℕ → ℕ → Bool → Bytes → Event
  arrives : ℕ → Bool → Arrival → Event
  ticks : ℕ → Bool → Event
  closes : ℕ → Bool → Event
  seals : Bytes → Bytes → Event

-- A link that is active, or was and is stale now.
abbrev pub IsLive : Status → Type 0
IsLive active = Unit {0}
IsLive stale = Unit {0}
IsLive _ = ⊥

module _ (w : World) (identity : Identity) (unpack : Bytes → Option ℕ) where
  unfoldable pub step : Event → Link → Link
  unfolding validate_proof receive watchdog teardown encrypt
  step (proves now interface sent bs) l = (validate_proof w identity now interface sent bs l).1
  step (arrives now sent p) l = (receive w unpack now sent p l).1
  step (ticks now sent) l = (watchdog now sent l).1
  step (closes now sent) l = (teardown now sent l).1
  step (seals iv plaintext) l = (encrypt w iv plaintext l).1

  unfoldable pub run : List Event → Link → Link
  run [] l = l
  run (e ∷ es) l = run es (step e l)

  step-closed : (e : Event) (l : Link) → l.status ≡ closed → (step e l).status ≡ closed
  unfolding step
  step-closed (proves now interface sent bs) l h = ground arith
  step-closed (arrives now sent p) l h = ground arith
  step-closed (ticks now sent) l h = ground arith
  step-closed (closes now sent) l h = ground arith
  step-closed (seals iv plaintext) l h = ground arith

  -- A closed link stays closed, whatever comes in and whatever is done with it.
  pub run-closed : (es : List Event) (l : Link) → l.status ≡ closed → (run es l).status ≡ closed
  unfolding run
  run-closed [] l h = h
  run-closed (e ∷ es) l h = run-closed es (step e l) (step-closed e l h)

-- The time by which a link that hears nothing is found to be dead.
abbrev pub deadline : Link → ℕ
deadline l = elim l.status [
  | pending ↦ l.request_time + l.establishment_timeout
  | handshaking ↦ l.request_time + l.establishment_timeout
  | active ↦ since_inbound l + l.stale_time
  | _ ↦ 0
]

-- After its deadline, a link that hears nothing, and whose stale time is not below its keepalive
-- interval, is closed by at most two rounds of the watchdog, for
-- the reason of a timeout, where what it sends goes out.
pub watchdog-closed :
    (t1 t2 : ℕ) (l : Link)
    → l.status ≢ closed
    → l.keepalive ≤ l.stale_time
    → deadline l ≤ t1
    → ((watchdog t2 true (watchdog t1 true l).1).1.status ≡ closed)
      × ((watchdog t2 true (watchdog t1 true l).1).1.teardown_reason ≡ some timeout)
unfolding watchdog link_closed
watchdog-closed t1 t2 l alive kept late = ground arith
