-- ===== src/Link/Closing.antt =====
-- The life of a link after its request: Link.rtt_packet, teardown, teardown_packet, link_closed, the
-- watchdog and receive. An operation reads the time once; `sent` is whether what it sends goes out
-- without an exception.
use reticulum.Prelude.{
  ℕ, ◌+◌, ◌-◌, Bytes, bytes_eq, List, [], ◌∷◌, Option, none, some, Bool, true, false, not, ◌&&◌,
  ◌||◌, leb, ◌==◌, max, if◌then◌else◌,
}
use reticulum.Packet.{data_packet, keepalive}
use reticulum.Link.{
  Link, pending, handshaking, active, stale, closed, Reason, timeout, initiator_closed,
  destination_closed, Effect, sends_close, sends_keepalive, answers_keepalive, established,
  concludes, raises, hands_on, is_pending, is_stale, is_closed, had_outbound, had_keepalive,
  update_keepalive,
}
use reticulum.Link.Keys.{World, decrypt}

-- LRRTT and LINKCLOSE of RNS/Packet.py
abbrev pub lr_rtt : ℕ
lr_rtt = 0xFE

abbrev pub link_close : ℕ
link_close = 0xFC

unfoldable pub link_closed : Reason → Link → Link
link_closed reason l = record l {
  status = closed;
  teardown_reason = some reason;
  private_key = none;
  derived_key = none;
}

-- The reason of the side that closes, and of the other side.
abbrev pub own_reason : Link → Reason
own_reason l = if l.initiator then initiator_closed else destination_closed

abbrev pub other_reason : Link → Reason
other_reason l = if l.initiator then destination_closed else initiator_closed

unfoldable pub teardown : ℕ → Bool → Link → List Effect × Link
unfolding link_closed
teardown now sent l =
    if is_pending l.status || is_closed l.status
    then (concludes ∷ [], link_closed (own_reason l) l)
    else if sent
    then (sends_close ∷ concludes ∷ [], link_closed (own_reason l) (had_outbound now l))
    else (raises ∷ [], l)

-- By what a close packet decrypts to.
abbrev pub close_by : Option Bytes → Link → List Effect × Link
close_by none l = ([], l)
close_by (some bs) l =
    if bytes_eq bs l.link_id then (concludes ∷ [], link_closed (other_reason l) l) else ([], l)

unfoldable pub teardown_packet : World → Bytes → Link → List Effect × Link
unfolding link_closed decrypt
teardown_packet w ciphertext l =
    let (plaintext, l') = decrypt w ciphertext l in close_by plaintext l'

-- By what an rtt packet unpacks to.
abbrev pub set_rtt : ℕ → Bool → Option ℕ → Link → List Effect × Link
set_rtt now sent none l = teardown now sent l
set_rtt now sent (some rtt) l =
    let measured = max (now - l.request_time) rtt in
    (
      established ∷ [],
      update_keepalive measured
          (record l { rtt = some measured; status = active; activated_at = some now }),
    )

-- `unpack` is umsgpack.unpackb, where it gives a number.
abbrev pub note_rtt : (Bytes → Option ℕ) → ℕ → Bool → Option Bytes → Link → List Effect × Link
note_rtt unpack now sent none l = ([], l)
note_rtt unpack now sent (some bs) l = set_rtt now sent (unpack bs) l

unfoldable pub rtt_packet :
    World → (Bytes → Option ℕ) → ℕ → Bool → Bytes → Link → List Effect × Link
unfolding teardown decrypt
rtt_packet w unpack now sent ciphertext l =
    let (plaintext, l') = decrypt w ciphertext l in note_rtt unpack now sent plaintext l'

-- One round of the watchdog.
abbrev pub since_inbound : Link → ℕ
since_inbound l =
    max (max l.last_inbound l.last_proof) (elim l.activated_at [ none ↦ 0 | some at ↦ at ])

abbrev pub check_keepalive : ℕ → Bool → Link → List Effect × Link
check_keepalive now sent l =
    if leb (since_inbound l + l.keepalive) now
    then if l.initiator && leb (l.last_keepalive + l.keepalive) now
      then if sent then (sends_keepalive ∷ [], had_keepalive now l) else (raises ∷ [], l)
      else ([], l)
    else ([], l)

abbrev pub has_raised : List Effect → Bool
has_raised (raises ∷ es) = true
has_raised _ = false

unfoldable pub watchdog : ℕ → Bool → Link → List Effect × Link
unfolding link_closed
watchdog now sent l = elim l.status [
  | pending ↦
      if leb (l.request_time + l.establishment_timeout) now
      then (concludes ∷ [], link_closed timeout l)
      else ([], l)
  | handshaking ↦
      if leb (l.request_time + l.establishment_timeout) now
      then (concludes ∷ [], link_closed timeout l)
      else ([], l)
  | active ↦
      let (es, l') = check_keepalive now sent l in
      if has_raised es
      then (es, l')
      else if leb (since_inbound l + l.keepalive) now && leb (since_inbound l + l.stale_time) now
      then (es, record l' { status = stale })
      else (es, l')
  | stale ↦
      if sent
      then (sends_close ∷ concludes ∷ [], link_closed timeout (had_outbound now l))
      else (raises ∷ [], l)
  | closed ↦ ([], l)
]

pub record Arrival : Type 0 where
  pub interface : ℕ
  pub packet_type : ℕ
  pub context : ℕ
  pub payload : Bytes

-- `packet.context == KEEPALIVE and packet.data == bytes([0xFF])`
abbrev pub is_keepalive : Arrival → Bool
is_keepalive p = p.context == keepalive && bytes_eq p.payload (0xFF ∷ [])

abbrev pub on_interface : Arrival → Link → Bool
on_interface p l = elim l.attached_interface [ none ↦ false | some i ↦ p.interface == i ]

-- What every packet does to the link.
abbrev pub note_inbound : ℕ → Arrival → Link → Link
note_inbound now p l = record l {
  last_inbound = now;
  last_data = if p.context == keepalive then l.last_data else now;
  status = if is_stale l.status then active else l.status;
}

-- The contexts of the link's own packets; the others are handed on.
unfoldable pub dispatch :
    World → (Bytes → Option ℕ) → ℕ → Bool → Arrival → Link → List Effect × Link
unfolding rtt_packet teardown_packet
dispatch w unpack now sent p l =
    if not (p.packet_type == data_packet)
    then (hands_on p.context ∷ [], l)
    else if p.context == lr_rtt
    then if l.initiator then ([], l) else rtt_packet w unpack now sent p.payload l
    else if p.context == link_close
    then teardown_packet w p.payload l
    else if p.context == keepalive
    then if not l.initiator && is_keepalive p
      then if sent then (answers_keepalive ∷ [], had_keepalive now l) else (raises ∷ [], l)
      else ([], l)
    else (hands_on p.context ∷ [], l)

unfoldable pub receive : World → (Bytes → Option ℕ) → ℕ → Bool → Arrival → Link → List Effect × Link
unfolding dispatch
receive w unpack now sent p l =
    if is_closed l.status || (l.initiator && is_keepalive p)
    then ([], l)
    else if on_interface p l
    then dispatch w unpack now sent p (note_inbound now p l)
    else ([], l)
