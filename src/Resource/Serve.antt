-- ===== src/Resource/Serve.antt =====
-- Resource.request on the sending side: the parts that it sends for a request, the update of the
-- hashmap, and the change to waiting for the proof.
use reticulum.Prelude.{
  ℕ, ◌+◌, ◌-◌, ◌*◌, ◌/◌, ◌%◌, Bytes, bytes_eq, List, [], ◌∷◌, ◌++◌, length, take, drop, Bool, true,
  false, not, ◌&&◌, ltb, ◌==◌, Option, none, some, if◌then◌else◌,
}
use reticulum.Transport.Announces.{contains}
use reticulum.Resource.{
  Status, transferring, awaiting_proof, complete, failed, rank, maphash_len, hashmap_max_len,
  collision_guard_size, max_retries, window_max_fast,
}
use reticulum.Resource.Slices.{slices, join}
use reticulum.Resource.Assemble.{hash_bytes}
use reticulum.Resource.Request.{is_failed, Request}

-- `sent` is whether the packet was sent before.
pub record Part : Type 0 where
  pub map_hash : Bytes
  pub payload : Bytes
  pub sent : Bool

pub record Server : Type 0 where
  pub status : Status
  pub hash : Bytes
  pub parts : List Part
  pub sent_parts : ℕ
  pub retries_left : ℕ
  pub receiver_min_consecutive_height : ℕ

-- The content of a request packet.
unfoldable pub request_data : Bytes → Request → Bytes
unfolding join
request_data hash q = elim q.last_map_hash [
  | none ↦ 0x00 ∷ (hash ++ join q.requested_hashes)
  | some h ↦ 0xFF ∷ (h ++ (hash ++ join q.requested_hashes))
]

abbrev pub hashes_of : Bytes → List Bytes
hashes_of bs = slices maphash_len 0 (length bs / maphash_len) bs

-- What the sending side reads from it; an empty packet raises.
unfoldable pub read_request : Bytes → Option Request
unfolding slices
read_request [] = none
read_request (flag ∷ bs) =
    if flag == 0xFF
    then some (record {
      last_map_hash = some (take maphash_len bs);
      requested_hashes = hashes_of (drop (maphash_len + hash_bytes) bs);
    })
    else some (record { last_map_hash = none; requested_hashes = hashes_of (drop hash_bytes bs) })

-- The parts from the lowest height of the receiver on, as far as the collision guard goes.
abbrev pub search_scope : Server → List Part
search_scope s = take collision_guard_size (drop s.receiver_min_consecutive_height s.parts)

unfoldable pub requested_parts : List Bytes → List Part → List Part
requested_parts hashes [] = []
requested_parts hashes (p ∷ ps) =
    let rest = requested_parts hashes ps in if contains p.map_hash hashes then p ∷ rest else rest

abbrev pub status_after_cancel : Status → Status
status_after_cancel status = if ltb (rank status) (rank complete) then failed else status

-- What Packet.send or resend does: an interface takes the packet, none does, or it raises.
pub data Outcome : Type 0 where
  taken refused raised : Outcome

abbrev pub has_raised : Outcome → Bool
has_raised raised = true
has_raised _ = false

-- The loop over the requested parts: how many are sent for the first time, and the status after it.
-- After an exception the loop goes on.
unfoldable pub send_parts : (Bytes → Outcome) → List Part → ℕ → Status → ℕ × Status
send_parts sends [] n status = (n, status)
send_parts sends (p ∷ ps) n status =
    send_parts sends ps (if not (has_raised (sends p.payload)) && not p.sent then n + 1 else n)
      (if has_raised (sends p.payload) then status_after_cancel status else status)

-- A packet counts as sent where an interface took it last.
abbrev pub mark : Outcome → Part → Part
mark taken p = record p { sent = true }
mark refused p = record p { sent = false }
mark raised p = p

-- The parts after it.
unfoldable pub mark_sent : (Bytes → Outcome) → List Bytes → List Part → List Part
mark_sent sends hashes [] = []
mark_sent sends hashes (p ∷ ps) =
    (if contains p.map_hash hashes then mark (sends p.payload) p else p) ∷ mark_sent sends hashes ps

-- The number of the part behind the one with the last map hash that the receiver knows.
unfoldable pub part_after : Bytes → ℕ → List Part → ℕ
part_after h i [] = i
part_after h i (p ∷ ps) =
    let rest = part_after h (i + 1) ps in if bytes_eq p.map_hash h then i + 1 else rest

unfoldable pub map_hashes : List Part → List Bytes
map_hashes [] = []
map_hashes (p ∷ ps) = p.map_hash ∷ map_hashes ps

-- The hashmap's segment, by its number.
unfoldable pub segment_hashes : ℕ → List Part → List Bytes
unfolding map_hashes
segment_hashes segment parts =
    take hashmap_max_len (drop (segment * hashmap_max_len) (map_hashes parts))

-- What goes out for a request.
pub record Served : Type 0 where
  pub sent : List Part
  pub update : Option (ℕ × List Bytes)

abbrev pub await_proof : Server → Server
await_proof s =
    if s.sent_parts == length s.parts
    then record s { status = awaiting_proof; retries_left = 3 }
    else s

-- The part of a request that asks for more of the hashmap. `updates` is whether the update can be
-- sent.
unfoldable pub serve_update : Bool → Bytes → List Part → Server → Served × Server
unfolding part_after segment_hashes
serve_update updates h sent s =
    let i = part_after h s.receiver_min_consecutive_height (search_scope s) in
    let lower : Server = record s { receiver_min_consecutive_height = i - 1 - window_max_fast } in
    if i % hashmap_max_len == 0
    then (let segment = i / hashmap_max_len in
        (
          record { sent = sent; update = some (segment, segment_hashes segment s.parts) },
          await_proof (
              if updates
              then lower
              else record lower { status = status_after_cancel lower.status }),
        ))
    else (
      record { sent = sent; update = none },
      record lower { status = status_after_cancel lower.status },
    )

-- The sending side after the loop over the requested parts.
unfoldable pub after_parts : (Bytes → Outcome) → List Bytes → Server → Server
unfolding requested_parts send_parts mark_sent
after_parts sends hashes s =
    let (n, status) =
      send_parts sends (requested_parts hashes (search_scope s)) s.sent_parts transferring in
    record s {
      status = status;
      parts =
          take s.receiver_min_consecutive_height s.parts
          ++ (mark_sent sends hashes (search_scope s)
              ++ drop collision_guard_size (drop s.receiver_min_consecutive_height s.parts));
      sent_parts = n;
      retries_left = max_retries;
    }

unfoldable pub request : (Bytes → Outcome) → Bool → Request → Server → Served × Server
unfolding requested_parts after_parts serve_update
request sends updates q s =
    if is_failed s.status
    then (record { sent = []; update = none }, s)
    else (let wanted = requested_parts q.requested_hashes (search_scope s) in
        let s' = after_parts sends q.requested_hashes s in
        elim q.last_map_hash [
          | none ↦ (record { sent = wanted; update = none }, await_proof s')
          | some h ↦ serve_update updates h wanted s'
        ])
