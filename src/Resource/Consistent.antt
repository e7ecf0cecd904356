-- ===== src/Resource/Consistent.antt =====
-- The state of a receiver between two operations, and that the steps of an operation keep it.
use reticulum.Prelude.{
  ℕ, zero, suc, ◌+◌, ◌≤◌, ◌≡◌, refl, ap, ◌∙◌, Bytes, List, [], ◌∷◌, length, drop, get_elem?, Bool,
  true, false, ◌&&◌, Option, none, some, arith, if◌then◌else◌,
}
use reticulum.Resource.Request.{Receiver, request_next, cancel}
use reticulum.Resource.Receive.{
  set_at, filled_prefix, is_missing, next_completed, insert_part, same_hash, place_part,
  note_response, note_round, widen, conclude_part, write_hashes, narrow,
}

abbrev pub count_filled : List (Option Bytes) → ℕ
count_filled [] = 0
count_filled (none ∷ ps) = count_filled ps
count_filled (some p ∷ ps) = suc (count_filled ps)

pub length-set_at :
    (i : ℕ) (v : Bytes) (ps : List (Option Bytes)) → length (set_at i v ps) ≡ length ps
unfolding set_at
length-set_at i v [] = refl
length-set_at zero v (p ∷ ps) = refl
length-set_at (suc i) v (p ∷ ps) = ap suc (length-set_at i v ps)

count_filled-set_at :
    (i : ℕ) (v : Bytes) (ps : List (Option Bytes))
    → is_missing ps i ≡ true
    → count_filled (set_at i v ps) ≡ suc (count_filled ps)
unfolding set_at
count_filled-set_at i v [] h = absurd (ground arith)
count_filled-set_at zero v (none ∷ ps) h = refl
count_filled-set_at zero v (some p ∷ ps) h = absurd (ground arith)
count_filled-set_at (suc i) v (none ∷ ps) h = count_filled-set_at i v ps h
count_filled-set_at (suc i) v (some p ∷ ps) h = ap suc (count_filled-set_at i v ps h)

pub filled_prefix-drop :
    (c : ℕ) (ps : List (Option Bytes))
    → c ≤ filled_prefix ps
    → c + filled_prefix (drop c ps) ≡ filled_prefix ps
unfolding filled_prefix
filled_prefix-drop zero ps h = omega arith
filled_prefix-drop (suc c) [] h = absurd (omega arith)
filled_prefix-drop (suc c) (none ∷ ps) h = absurd (omega arith)
filled_prefix-drop (suc c) (some p ∷ ps) h = omega (arith, filled_prefix-drop c ps (omega arith))

next_completed-le :
    (i : ℕ) (v : Bytes) (ps : List (Option Bytes))
    → is_missing ps i ≡ true
    → next_completed i (filled_prefix ps) ≤ filled_prefix (set_at i v ps)
unfolding set_at filled_prefix
next_completed-le i v [] h = absurd (ground arith)
next_completed-le zero v (none ∷ ps) h = ground arith
next_completed-le zero v (some p ∷ ps) h = absurd (ground arith)
next_completed-le (suc i) v (none ∷ ps) h = ground arith
next_completed-le (suc i) v (some p ∷ ps) h = ground (arith, next_completed-le i v ps h)

-- The counters agree with the parts, the pointer is at the first part that is missing, and the
-- window is at least as large as its minimum.
pub record IsConsistent (r : Receiver) : Type 0 where
  pub counted : r.received_count ≡ count_filled r.parts
  pub pointed : r.completed ≡ filled_prefix r.parts
  pub all_parts : length r.parts ≡ r.total_parts
  pub all_hashes : length r.hashmap ≡ r.total_parts
  pub narrowest : 2 ≤ r.window_min
  pub wide : r.window_min ≤ r.window

insert_part-IsConsistent :
    (i : ℕ) (part : Bytes) (r : Receiver)
    → is_missing r.parts i ≡ true
    → IsConsistent r
    → IsConsistent (insert_part i part r)
unfolding insert_part
insert_part-IsConsistent i part r missing h = record {
  counted = omega (arith, h.counted, count_filled-set_at i part r.parts missing);
  pointed =
      let here : next_completed i r.completed ≤ filled_prefix (set_at i part r.parts) =
        rw h.pointed (next_completed-le i part r.parts missing) in
      filled_prefix-drop (next_completed i r.completed) (set_at i part r.parts) here;
  all_parts = length-set_at i part r.parts ∙ h.all_parts;
  all_hashes = h.all_hashes;
  narrowest = h.narrowest;
  wide = h.wide;
}

place_one-IsConsistent :
    (i : ℕ) (part : Bytes) (r : Receiver) (fits missing : Bool)
    → is_missing r.parts i ≡ missing
    → IsConsistent r
    → IsConsistent (if fits && missing then insert_part i part r else r)
place_one-IsConsistent i part r true true e h = insert_part-IsConsistent i part r e h
place_one-IsConsistent i part r true false e h = h
place_one-IsConsistent i part r false missing e h = h

pub place_part-IsConsistent :
    (part_hash part : Bytes) (i : ℕ) (hs : List (Option Bytes)) (r : Receiver)
    → IsConsistent r
    → IsConsistent (place_part part_hash part i hs r)
unfolding place_part
place_part-IsConsistent part_hash part i [] r h = h
place_part-IsConsistent part_hash part i (m ∷ hs) r h =
    place_part-IsConsistent part_hash part (i + 1) hs _
      (place_one-IsConsistent i part r (same_hash m part_hash) (is_missing r.parts i) refl h)

pub request_next-IsConsistent :
    (sent : Bool) (r : Receiver) → IsConsistent r → IsConsistent (request_next sent r).1
unfolding request_next cancel
request_next-IsConsistent sent r h = ground arith

pub note_response-IsConsistent :
    (rate : Option ℕ) (r : Receiver) → IsConsistent r → IsConsistent (note_response rate r)
unfolding note_response
note_response-IsConsistent rate r h = ground arith

note_round-IsConsistent :
    (rate : Option ℕ) (r : Receiver) → IsConsistent r → IsConsistent (note_round rate r)
unfolding note_round
note_round-IsConsistent rate r h = ground arith

widen-IsConsistent : (r : Receiver) → IsConsistent r → IsConsistent (widen r)
unfolding widen
widen-IsConsistent r h = ground arith

pub narrow-IsConsistent : (r : Receiver) → IsConsistent r → IsConsistent (narrow r)
unfolding narrow
narrow-IsConsistent r h = ground arith

pub write_hashes-IsConsistent :
    (i : ℕ) (hs : List Bytes) (r : Receiver) → IsConsistent r → IsConsistent (write_hashes i hs r).1
unfolding write_hashes
write_hashes-IsConsistent i [] r h = h
write_hashes-IsConsistent i (m ∷ hs) r h =
    go (λ height. write_hashes-IsConsistent (i + 1) hs (with_hash height) (written height))
      (get_elem? r.hashmap i) refl
  where
    with_hash : ℕ → Receiver
    with_hash height = record r { hashmap_height = height; hashmap = set_at i m r.hashmap }

    written : (height : ℕ) → IsConsistent (with_hash height)
    written height = record {
      counted = h.counted;
      pointed = h.pointed;
      all_parts = h.all_parts;
      all_hashes = length-set_at i m r.hashmap ∙ h.all_hashes;
      narrowest = h.narrowest;
      wide = h.wide;
    }

    go :
        ((height : ℕ) → IsConsistent (write_hashes (i + 1) hs (with_hash height)).1)
        → (o : Option (Option Bytes)) → get_elem? r.hashmap i ≡ o
        → IsConsistent (write_hashes i (m ∷ hs) r).1
    go ih none e = rw (write_hashes, e) h
    go ih (some none) e = rw (write_hashes, e) (ih (r.hashmap_height + 1))
    go ih (some (some g)) e = rw (write_hashes, e) (ih r.hashmap_height)

pub conclude_part-IsConsistent :
    (sent : Bool) (rate : Option ℕ) (r : Receiver)
    → IsConsistent r
    → IsConsistent (conclude_part sent rate r).1
unfolding conclude_part
conclude_part-IsConsistent sent rate r h =
    let widened = note_round-IsConsistent rate (widen r) (widen-IsConsistent r h) in
    ground (arith, request_next-IsConsistent sent (note_round rate (widen r)) widened)
