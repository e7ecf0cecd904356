-- ===== src/Resource/Invariant.antt =====
-- What holds of the receiving side of a resource between two operations.
use reticulum.Prelude.{
  ℕ, ◌-◌, ◌*◌, ◌/◌, Bytes, List, [], ◌∷◌, length, take, drop, Bool, true, false, Option, arith,
  if◌then◌else◌,
}
use reticulum.Resource.{Status, transferring, hashmap_max_len, maphash_len, max_retries}
use reticulum.Resource.Slices.{slices}
use reticulum.Resource.Request.{is_failed, Receiver, Action, cancel}
use reticulum.Resource.Receive.{
  note_response, receive_part, write_hashes, hashmap_update, hashmap_update_packet, narrow,
  timed_out,
}
use reticulum.Resource.Consistent.{
  IsConsistent, place_part-IsConsistent, request_next-IsConsistent, note_response-IsConsistent,
  narrow-IsConsistent, write_hashes-IsConsistent, conclude_part-IsConsistent,
}

-- What happens at the receiving side: a part, an update of the hashmap, or the end of the time for an
-- answer; each with what was measured and whether a request could be sent.
pub data Event : Type 0 where
  arrives : Option ℕ → Option ℕ → Bool → Bytes → Event
  updates : Bool → ℕ → Bytes → Event
  times_out : Bool → Event

-- Fields that the invariant does not speak of.
restart-IsConsistent :
    (r : Receiver) (status : Status) (retries : ℕ) (waits : Bool)
    → IsConsistent r
    → IsConsistent (record r { status = status; retries_left = retries; waiting_for_hmu = waits })
restart-IsConsistent r status retries waits h = record {
  counted = h.counted;
  pointed = h.pointed;
  all_parts = h.all_parts;
  all_hashes = h.all_hashes;
  narrowest = h.narrowest;
  wide = h.wide;
}

timed_out-IsConsistent :
    (sent : Bool) (r : Receiver) → IsConsistent r → IsConsistent (timed_out sent r).1
unfolding timed_out cancel
timed_out-IsConsistent sent r h =
    let again = request_next-IsConsistent sent _ (
      restart-IsConsistent (narrow r) (narrow r).status (r.retries_left - 1) false
        (narrow-IsConsistent r h)) in
    ground (arith, again)

either-IsConsistent :
    (b : Bool) (x y : Action × Receiver)
    → IsConsistent x.1
    → IsConsistent y.1
    → IsConsistent (if b then x else y).1
either-IsConsistent true x y hx hy = hx
either-IsConsistent false x y hx hy = hy

hashmap_update-IsConsistent :
    (sent : Bool) (segment : ℕ) (hashmap : Bytes) (r : Receiver)
    → IsConsistent r
    → IsConsistent (hashmap_update sent segment hashmap r).1
unfolding hashmap_update
hashmap_update-IsConsistent sent segment hashmap r h =
    let started : Receiver = record r { status = transferring } in
    let hashes : List Bytes = slices maphash_len 0 (length hashmap / maphash_len) hashmap in
    let at : ℕ = segment * hashmap_max_len in
    let r' : Receiver = (write_hashes at hashes started).1 in
    let after =
      write_hashes-IsConsistent at hashes started
        (restart-IsConsistent r transferring r.retries_left r.waiting_for_hmu h) in
    let next =
      request_next-IsConsistent sent (record r' { waiting_for_hmu = false })
        (restart-IsConsistent r' r'.status r'.retries_left false after) in
    either-IsConsistent (is_failed r.status) _ _ h
      (either-IsConsistent (write_hashes at hashes started).0 _ _ next after)

hashmap_update_packet-IsConsistent :
    (sent : Bool) (segment : ℕ) (hashmap : Bytes) (r : Receiver)
    → IsConsistent r
    → IsConsistent (hashmap_update_packet sent segment hashmap r).1
unfolding hashmap_update_packet
hashmap_update_packet-IsConsistent sent segment hashmap r h =
    either-IsConsistent (is_failed r.status) _ _ h (
      hashmap_update-IsConsistent sent segment hashmap (record r { retries_left = max_retries })
        (restart-IsConsistent r r.status max_retries r.waiting_for_hmu h))

-- The receiver after the first lines of receive_part.
abbrev pub responded : Option ℕ → Receiver → Receiver
responded response r =
    let r1 : Receiver = record r { retries_left = max_retries } in
    if r.waits_for_response then note_response response r1 else r1

responded-IsConsistent :
    (response : Option ℕ) (r : Receiver) → IsConsistent r → IsConsistent (responded response r)
responded-IsConsistent response r h =
    elim r.waits_for_response
      as (λ b. IsConsistent (
        if b
        then note_response response (record r { retries_left = max_retries })
        else record r { retries_left = max_retries })) [
          | true ↦ note_response-IsConsistent response _ kept
          | false ↦ kept
        ]
  where
    kept : IsConsistent (record r { retries_left = max_retries })
    kept = restart-IsConsistent r r.status max_retries r.waiting_for_hmu h

module _ (map_hash : Bytes → Bytes) where
  receive_part-IsConsistent :
      (response rate : Option ℕ) (sent : Bool) (part : Bytes) (r : Receiver)
      → IsConsistent r
      → IsConsistent (receive_part map_hash response rate sent part r).1
  unfolding receive_part
  receive_part-IsConsistent response rate sent part r h =
      let r2 : Receiver = responded response r in
      let ready = responded-IsConsistent response r h in
      let index : ℕ = r.completed - 1 in
      either-IsConsistent (is_failed r.status) _ _ ready (
        conclude_part-IsConsistent sent rate _ (
          place_part-IsConsistent (map_hash part) part index (take r.window (drop index r.hashmap))
            _ (restart-IsConsistent r2 transferring r2.retries_left r2.waiting_for_hmu ready)))

  pub step : Event → Receiver → Action × Receiver
  unfolding receive_part hashmap_update_packet timed_out
  step (arrives response rate sent part) r = receive_part map_hash response rate sent part r
  step (updates sent segment hashmap) r = hashmap_update_packet sent segment hashmap r
  step (times_out sent) r = timed_out sent r

  step-IsConsistent : (e : Event) (r : Receiver) → IsConsistent r → IsConsistent (step e r).1
  unfolding step
  step-IsConsistent (arrives response rate sent part) r h =
      receive_part-IsConsistent response rate sent part r h
  step-IsConsistent (updates sent segment hashmap) r h =
      hashmap_update_packet-IsConsistent sent segment hashmap r h
  step-IsConsistent (times_out sent) r h = timed_out-IsConsistent sent r h

  -- The actions of a run of events, and the receiver after it.
  pub run : List Event → Receiver → List Action × Receiver
  run [] r = ([], r)
  run (e ∷ es) r = let (a, r') = step e r in let (as', r'') = run es r' in (a ∷ as', r'')

  -- A consistent receiver stays consistent. Whatever parts, hashmap updates and timeouts it meets, in any order: its count is the
  -- number of parts that it has, its pointer is the number of parts that it has from the first on
  -- without a gap, its lists keep their lengths, and its window is at least its minimum, and that at
  -- least 2.
  pub run-IsConsistent :
      (es : List Event) (r : Receiver) → IsConsistent r → IsConsistent (run es r).1
  unfolding run
  run-IsConsistent [] r h = h
  run-IsConsistent (e ∷ es) r h = run-IsConsistent es (step e r).1 (step-IsConsistent e r h)
