-- ===== src/Link/Requests.antt =====
-- RequestReceipt of RNS/Link.py: what becomes of a request that was sent over a link, and
-- Link.handle_response.
use reticulum.Packet.Receipt.{Receipt, conclude_by_response, conclude_by_progress}
use reticulum.Prelude.{
  ℕ, ◌+◌, ◌≡◌, refl, ◌∙◌, Bytes, List, [], ◌∷◌, Option, none, some, Bool, true, false, ◌&&◌, ltb,
  arith, if◌then◌else◌,
}

pub data RequestStatus : Type 0 where
  refused sent delivered receiving ready : RequestStatus

abbrev pub is_refused : RequestStatus → Bool
is_refused refused = true
is_refused _ = false

abbrev pub is_delivered : RequestStatus → Bool
is_delivered delivered = true
is_delivered _ = false

-- `refused` is FAILED. `outstanding` is whether the request is among the link's pending requests;
-- `failures` and `responses` count the calls of the callbacks; `packet_receipt` is the receipt of the
-- packet, where the request was sent in one.
pub record RequestReceipt : Type 0 where
  pub request_status : RequestStatus
  pub packet_receipt : Option Receipt
  pub outstanding : Bool
  pub timeout : ℕ
  pub response_timeout : ℕ
  pub response : Option Bytes
  pub failures : ℕ
  pub responses : ℕ

abbrev pub refuse : RequestReceipt → RequestReceipt
refuse r = record r { request_status = refused; outstanding = false; failures = r.failures + 1 }

-- The request's resource has been sent, or not; the removal of a request that is not there raises.
unfoldable pub request_resource_concluded : Bool → ℕ → RequestReceipt → RequestReceipt
request_resource_concluded true now r = record r {
  request_status = delivered;
  response_timeout = now + r.timeout;
}
request_resource_concluded false now r =
    if r.outstanding then refuse r else record r { request_status = refused }

unfoldable pub request_timed_out : RequestReceipt → RequestReceipt
request_timed_out r = if r.outstanding && is_delivered r.request_status then refuse r else r

-- A round of the response timeout job.
unfoldable pub response_timeout_job : ℕ → RequestReceipt → RequestReceipt
unfolding request_timed_out
response_timeout_job now r =
    if is_delivered r.request_status && ltb r.response_timeout now then request_timed_out r else r

abbrev pub on_packet : (Receipt → Receipt) → Option Receipt → Option Receipt
on_packet conclude none = none
on_packet conclude (some receipt) = some (conclude receipt)

unfoldable pub response_resource_progress : ℕ → RequestReceipt → RequestReceipt
unfolding conclude_by_progress
response_resource_progress now r = if is_refused r.request_status then r else record r {
  request_status = receiving;
  packet_receipt = on_packet (conclude_by_progress now) r.packet_receipt;
}

unfoldable pub response_received : Bytes → ℕ → RequestReceipt → RequestReceipt
unfolding conclude_by_response
response_received bs now r = if is_refused r.request_status then r else record r {
  request_status = ready;
  response = some bs;
  packet_receipt = on_packet (conclude_by_response now) r.packet_receipt;
  responses = r.responses + 1;
}

-- On an active link.
unfoldable pub handle_response : Bytes → ℕ → RequestReceipt → RequestReceipt
unfolding response_received
handle_response bs now r =
    if r.outstanding then record (response_received bs now r) { outstanding = false } else r

-- response_resource_concluded, where the response's resource failed.
unfoldable pub response_failed : RequestReceipt → RequestReceipt
unfolding request_timed_out
response_failed r = if r.outstanding then request_timed_out r else r

-- What comes to a request: the timeout of its packet's receipt, the response timeout, progress of a
-- response's resource, its failure, and a response.
pub data RequestEvent : Type 0 where
  packet_timeout response_fails : RequestEvent
  progresses checks : ℕ → RequestEvent
  responds : Bytes → ℕ → RequestEvent

unfoldable pub happens : RequestEvent → RequestReceipt → RequestReceipt
unfolding request_timed_out response_timeout_job response_resource_progress handle_response
    response_failed
happens packet_timeout r = request_timed_out r
happens (progresses now) r = response_resource_progress now r
happens response_fails r = response_failed r
happens (checks now) r = response_timeout_job now r
happens (responds bs now) r = handle_response bs now r

unfoldable pub happen : List RequestEvent → RequestReceipt → RequestReceipt
happen [] r = r
happen (e ∷ es) r = happen es (happens e r)

-- The statuses that the receipt of a packet's request comes to.
abbrev pub IsUnrefused : RequestStatus → Type 0
IsUnrefused sent = Unit {0}
IsUnrefused receiving = Unit {0}
IsUnrefused ready = Unit {0}
IsUnrefused _ = ⊥

happens_lem :
    (e : RequestEvent) (r : RequestReceipt)
    → IsUnrefused r.request_status
    → IsUnrefused (happens e r).request_status × ((happens e r).failures ≡ r.failures)
unfolding happens
happens_lem packet_timeout r h = ground arith
happens_lem (progresses now) r h = ground arith
happens_lem response_fails r h = ground arith
happens_lem (checks now) r h = ground arith
happens_lem (responds bs now) r h = ground arith

-- A request that was sent in a packet never fails: whatever timeouts, failures and responses come,
-- its status is not FAILED and the callback for a failure is not called.
pub happen-IsUnrefused :
    (es : List RequestEvent) (r : RequestReceipt)
    → IsUnrefused r.request_status
    → IsUnrefused (happen es r).request_status × ((happen es r).failures ≡ r.failures)
unfolding happen
happen-IsUnrefused [] r h = (h, refl)
happen-IsUnrefused (e ∷ es) r h =
    let (next, same) = happens_lem e r h in
    let (last, rest) = happen-IsUnrefused es (happens e r) next in (last, rest ∙ same)

settled :
    (e : RequestEvent) (r : RequestReceipt)
    → r.outstanding ≡ false
    → ((happens e r).outstanding ≡ false)
      × ((happens e r).responses ≡ r.responses)
      × ((happens e r).failures ≡ r.failures)
unfolding happens
settled packet_timeout r h = ground arith
settled (progresses now) r h = ground arith
settled response_fails r h = ground arith
settled (checks now) r h = ground arith
settled (responds bs now) r h = ground arith

-- A request that is settled, by a response or by a failure, calls neither callback again.
pub happen-settled :
    (es : List RequestEvent) (r : RequestReceipt)
    → r.outstanding ≡ false
    → ((happen es r).responses ≡ r.responses) × ((happen es r).failures ≡ r.failures)
unfolding happen
happen-settled [] r h = (refl, refl)
happen-settled (e ∷ es) r h =
    let (next, answers, fails) = settled e r h in
    let (later, rest) = happen-settled es (happens e r) next in (later ∙ answers, rest ∙ fails)
