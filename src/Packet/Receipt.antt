-- ===== src/Packet/Receipt.antt =====
-- PacketReceipt of RNS/Packet.py. Times are milliseconds; callbacks are counted where they are
-- called. The identity of the destination and the link enter by their `validate`.
use reticulum.Prelude.{
  ℕ, ◌+◌, Bytes, length, take, drop, bytes_eq, Option, none, some, Bool, true, false, ◌&&◌, ltb,
  ◌==◌, if◌then◌else◌,
}

-- HASHLENGTH//8, SIGLENGTH//8, EXPL_LENGTH and IMPL_LENGTH
abbrev pub hash_len : ℕ
hash_len = 32

abbrev pub sig_len : ℕ
sig_len = 64

abbrev pub expl_length : ℕ
expl_length = 96

abbrev pub impl_length : ℕ
impl_length = 64

pub data Status : Type 0 where
  failed sent delivered culled : Status

-- `timeout` is a number of milliseconds, or the -1 (a second) by which a receipt is culled.
pub data Timeout : Type 0 where
  after : ℕ → Timeout
  cull : Timeout

pub record Receipt : Type 0 where
  pub hash : Bytes
  pub status : Status
  pub proved : Bool
  pub sent_at : ℕ
  pub concluded_at : Option ℕ
  pub timeout : Timeout
  pub proof_packet : Option Bytes
  -- `destination.identity.validate`, if the destination has an identity
  pub identity : Option (Bytes → Bytes → Bool)
  pub has_delivery : Bool
  pub has_timeout : Bool
  pub delivery_calls : ℕ
  pub timeout_calls : ℕ

pub record Peer : Type 0 where
  pub validate : Bytes → Bytes → Bool
  pub last_proof : ℕ

abbrev pub is_delivered : Status → Bool
is_delivered delivered = true
is_delivered _ = false

-- The writes of a valid proof, and the delivery callback.
unfoldable pub conclude : Bytes → ℕ → Receipt → Receipt
conclude proof now r = record r {
  status = delivered;
  proved = true;
  concluded_at = some now;
  proof_packet = some proof;
  delivery_calls = if r.has_delivery then r.delivery_calls + 1 else r.delivery_calls;
}

abbrev pub proof_hash : Bytes → Bytes
proof_hash proof = take hash_len proof

abbrev pub explicit_signature : Bytes → Bytes
explicit_signature proof = take sig_len (drop hash_len proof)

abbrev pub implicit_signature : Bytes → Bytes
implicit_signature proof = take sig_len proof

-- A response to the request that the packet carried concludes its receipt with no proof: Link.py
-- RequestReceipt.response_received, and response_resource_progress, which leaves a delivered one.
unfoldable pub conclude_by_response : ℕ → Receipt → Receipt
conclude_by_response now r = record r {
  status = delivered;
  proved = true;
  concluded_at = some now;
  delivery_calls = if r.has_delivery then r.delivery_calls + 1 else r.delivery_calls;
}

unfoldable pub conclude_by_progress : ℕ → Receipt → Receipt
unfolding conclude_by_response
conclude_by_progress now r = if is_delivered r.status then r else conclude_by_response now r

-- `if True or …`: a proof over a link is read as explicit, whatever its length.
unfoldable pub validate_link_proof : Bytes → ℕ → Peer → Receipt → Bool × Receipt × Peer
unfolding conclude
validate_link_proof proof now link r =
    if bytes_eq (proof_hash proof) r.hash
    then if link.validate (explicit_signature proof) r.hash
      then (true, conclude proof now r, record link { last_proof = now })
      else (false, r, link)
    else (false, r, link)

unfoldable pub validate_by :
    Option (Bytes → Bytes → Bool) → Bytes → Bytes → ℕ → Receipt → Bool × Receipt
unfolding conclude
validate_by none signature proof now r = (false, r)
validate_by (some validate) signature proof now r =
    if validate signature r.hash then (true, conclude proof now r) else (false, r)

unfoldable pub validate_proof : Bytes → ℕ → Receipt → Bool × Receipt
unfolding validate_by
validate_proof proof now r =
    if length proof == expl_length
    then if bytes_eq (proof_hash proof) r.hash
      then validate_by r.identity (explicit_signature proof) proof now r
      else (false, r)
    else if length proof == impl_length
    then validate_by r.identity (implicit_signature proof) proof now r
    else (false, r)

-- `sent_at + timeout < time.time()`
abbrev pub is_timed_out : ℕ → Receipt → Bool
is_timed_out now r = elim r.timeout [
  | after t ↦ ltb (r.sent_at + t) now
  | cull ↦ ltb r.sent_at (now + 1000)
]

abbrev is_sent : Status → Bool
is_sent sent = true
is_sent _ = false

abbrev timed_out_status : Timeout → Status
timed_out_status cull = culled
timed_out_status (after t) = failed

unfoldable pub check_timeout : ℕ → Receipt → Receipt
check_timeout now r =
    if is_sent r.status && is_timed_out now r
    then record r {
      status = timed_out_status r.timeout;
      concluded_at = some now;
      timeout_calls = if r.has_timeout then r.timeout_calls + 1 else r.timeout_calls;
    }
    else r

unfoldable pub set_timeout : Timeout → Receipt → Receipt
set_timeout t r = record r { timeout = t }
