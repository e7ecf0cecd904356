-- ===== src/Resource/Receive.antt =====
-- Resource.receive_part, hashmap_update and hashmap_update_packet, and what the watchdog does on the
-- receiving side when parts do not come.
use reticulum.Prelude.{
  ℕ, zero, suc, ◌+◌, ◌-◌, ◌*◌, ◌/◌, Bytes, bytes_eq, List, [], ◌∷◌, length, take, drop, get_elem?,
  Bool, true, false, not, ◌&&◌, ltb, ◌==◌, Option, none, some, if◌then◌else◌,
}
use reticulum.Resource.{
  transferring, window_max_fast, window_max_very_slow, fast_rate_threshold,
  very_slow_rate_threshold, rate_fast, rate_very_slow, window_flexibility, max_retries,
  hashmap_max_len, maphash_len,
}
use reticulum.Resource.Slices.{slices}
use reticulum.Resource.Request.{
  Receiver, Action, nothing, start_assembly, broken, cancelled, is_failed, request_next, cancel,
}

unfoldable pub set_at : ℕ → Bytes → List (Option Bytes) → List (Option Bytes)
set_at i v [] = []
set_at zero v (p ∷ ps) = some v ∷ ps
set_at (suc i) v (p ∷ ps) = p ∷ set_at i v ps

-- How many parts are there from the start on.
unfoldable pub filled_prefix : List (Option Bytes) → ℕ
filled_prefix [] = 0
filled_prefix (none ∷ ps) = 0
filled_prefix (some p ∷ ps) = suc (filled_prefix ps)

-- `self.parts[i] == None`
abbrev pub is_missing : List (Option Bytes) → ℕ → Bool
is_missing parts i = elim (get_elem? parts i) [
  | none ↦ false
  | some p ↦ elim p [ none ↦ true | some bs ↦ false ]
]

-- The pointer to the end of the parts that are there: first past this part, if it is the next, and
-- then on while parts are there.
abbrev pub next_completed : ℕ → ℕ → ℕ
next_completed i completed = if i == completed then i + 1 else completed

unfoldable pub insert_part : ℕ → Bytes → Receiver → Receiver
unfolding set_at filled_prefix
insert_part i part r =
    let parts = set_at i part r.parts in
    let c = next_completed i r.completed in
    record r {
      parts = parts;
      received_count = r.received_count + 1;
      arrived = r.arrived + 1;
      completed = c + filled_prefix (drop c parts);
    }

abbrev pub same_hash : Option Bytes → Bytes → Bool
same_hash none h = false
same_hash (some g) h = bytes_eq g h

-- The loop over the map hashes of the window; `i` is the part's number.
unfoldable pub place_part : Bytes → Bytes → ℕ → List (Option Bytes) → Receiver → Receiver
unfolding insert_part
place_part part_hash part i [] r = r
place_part part_hash part i (h ∷ hs) r =
    place_part part_hash part (i + 1) hs
      (if same_hash h part_hash && is_missing r.parts i then insert_part i part r else r)

-- The first response to a request, with its rate if some time has passed.
unfoldable pub note_response : Option ℕ → Receiver → Receiver
note_response none r = record r { waits_for_response = false }
note_response (some rate) r =
    if ltb rate_fast rate && ltb r.fast_rate_rounds fast_rate_threshold
    then record r {
      waits_for_response = false;
      fast_rate_rounds = r.fast_rate_rounds + 1;
      window_max =
          if r.fast_rate_rounds + 1 == fast_rate_threshold then window_max_fast else r.window_max;
    }
    else record r { waits_for_response = false }

unfoldable pub fast_round : ℕ → Receiver → Receiver
fast_round rate r =
    if ltb rate_fast rate && ltb r.fast_rate_rounds fast_rate_threshold
    then record r {
      fast_rate_rounds = r.fast_rate_rounds + 1;
      window_max =
          if r.fast_rate_rounds + 1 == fast_rate_threshold then window_max_fast else r.window_max;
    }
    else r

unfoldable pub very_slow_round : ℕ → Receiver → Receiver
very_slow_round rate r =
    if r.fast_rate_rounds == 0
      && (ltb rate rate_very_slow && ltb r.very_slow_rate_rounds very_slow_rate_threshold)
    then record r {
      very_slow_rate_rounds = r.very_slow_rate_rounds + 1;
      window_max =
          if r.very_slow_rate_rounds + 1 == very_slow_rate_threshold
          then window_max_very_slow
          else r.window_max;
    }
    else r

unfoldable pub note_round : Option ℕ → Receiver → Receiver
unfolding fast_round very_slow_round
note_round none r = r
note_round (some rate) r = very_slow_round rate (fast_round rate r)

unfoldable pub widen : Receiver → Receiver
widen r =
    if ltb r.window r.window_max
    then record r {
      window = r.window + 1;
      window_min =
          if ltb (r.window_min + (window_flexibility - 1)) (r.window + 1)
          then r.window_min + 1
          else r.window_min;
    }
    else r

-- The end of receive_part. `rate` is that of the round, if some time has passed since its request.
unfoldable pub conclude_part : Bool → Option ℕ → Receiver → Action × Receiver
unfolding note_round widen
conclude_part sent rate r =
    if r.received_count == r.total_parts && not r.assembly_lock
    then (start_assembly, record r { assembly_lock = true })
    else if r.requested == r.arrived
    then request_next sent (note_round rate (widen r))
    else (nothing, r)

module _ (map_hash : Bytes → Bytes) where
  -- `response` and `rate` are the measured rates; `sent` is whether a request can be sent.
  unfoldable pub receive_part : Option ℕ → Option ℕ → Bool → Bytes → Receiver → Action × Receiver
  receive_part response rate sent part r =
      let r1 : Receiver = record r { retries_left = max_retries } in
      let r2 = if r.waits_for_response then note_response response r1 else r1 in
      if is_failed r.status
      then (nothing, r2)
      else (let index = r.completed - 1 in
          conclude_part sent rate (
            place_part (map_hash part) part index (take r.window (drop index r.hashmap))
              (record r2 { status = transferring })))

-- The entries from `i` on; an index behind the last part raises.
unfoldable pub write_hashes : ℕ → List Bytes → Receiver → Bool × Receiver
write_hashes i [] r = (true, r)
write_hashes i (h ∷ hs) r = elim (get_elem? r.hashmap i) [
  | none ↦ (false, r)
  | some old ↦ write_hashes (i + 1) hs (record r {
    hashmap_height = elim old [ none ↦ r.hashmap_height + 1 | some g ↦ r.hashmap_height ];
    hashmap = set_at i h r.hashmap;
  })
]

unfoldable pub hashmap_update : Bool → ℕ → Bytes → Receiver → Action × Receiver
hashmap_update sent segment hashmap r =
    if is_failed r.status
    then (nothing, r)
    else (let hashes = slices maphash_len 0 (length hashmap / maphash_len) hashmap in
        let (written, r') =
          write_hashes (segment * hashmap_max_len) hashes (record r { status = transferring }) in
        if written then request_next sent (record r' { waiting_for_hmu = false }) else (broken, r'))

-- Of an update packet that unpacks to a segment number and a hashmap.
unfoldable pub hashmap_update_packet : Bool → ℕ → Bytes → Receiver → Action × Receiver
hashmap_update_packet sent segment hashmap r =
    if is_failed r.status
    then (nothing, r)
    else hashmap_update sent segment hashmap (record r { retries_left = max_retries })

unfoldable pub narrow : Receiver → Receiver
narrow r =
    if ltb r.window_min r.window
    then (let window = r.window - 1 in
        if ltb r.window_min r.window_max
        then record r {
          window = window;
          window_max =
              if ltb (window + (window_flexibility - 1)) (r.window_max - 1)
              then r.window_max - 2
              else r.window_max - 1;
        }
        else record r { window = window })
    else r

-- The watchdog's step while the status is TRANSFERRING and the time for an answer is over.
unfoldable pub timed_out : Bool → Receiver → Action × Receiver
timed_out sent r =
    if ltb 0 r.retries_left
    then request_next sent
        (record (narrow r) { retries_left = r.retries_left - 1; waiting_for_hmu = false })
    else (cancelled, cancel r)
