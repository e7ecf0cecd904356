-- ===== src/Resource/Progress.antt =====
-- Which parts a receiver asks for, and which it takes.
use mathlib.Core.Path.{subst}
use reticulum.Prelude.{
  ℕ, zero, suc, ◌+◌, ◌-◌, ◌≤◌, ◌<◌, ◌≡◌, refl, ap, ◌∙◌, sym, Bytes, bytes_eq_refl, List, [], ◌∷◌,
  length, take, drop, Bool, true, false, ◌&&◌, Option, none, some, arith, if◌then◌else◌,
}
use reticulum.Resource.{transferring}
use reticulum.Resource.Request.{Receiver, Action, is_failed, entry_at, request_next, cancel}
use reticulum.Resource.Receive.{
  filled_prefix, is_missing, insert_part, same_hash, place_part, note_response, note_round, widen,
  conclude_part, receive_part,
}
use reticulum.Resource.Invariant.{responded}
use reticulum.Resource.Consistent.{IsConsistent}

is_missing-filled_prefix :
    (ps : List (Option Bytes))
    → filled_prefix ps < length ps
    → is_missing ps (filled_prefix ps) ≡ true
unfolding filled_prefix
is_missing-filled_prefix [] h = absurd (omega arith)
is_missing-filled_prefix (none ∷ ps) h = refl
is_missing-filled_prefix (some p ∷ ps) h = is_missing-filled_prefix ps (omega arith)

is_missing_below :
    (i : ℕ) (ps : List (Option Bytes)) → i < filled_prefix ps → is_missing ps i ≡ false
unfolding filled_prefix
is_missing_below i [] h = absurd (omega arith)
is_missing_below i (none ∷ ps) h = absurd (omega arith)
is_missing_below zero (some p ∷ ps) h = refl
is_missing_below (suc i) (some p ∷ ps) h = is_missing_below i ps (omega arith)

insert_part-completed :
    (i : ℕ) (part : Bytes) (r : Receiver) → r.completed ≤ (insert_part i part r).completed
unfolding insert_part
insert_part-completed i part r = ground arith

insert_part_next :
    (c : ℕ) (part : Bytes) (r : Receiver) → r.completed ≡ c → c < (insert_part c part r).completed
unfolding insert_part
insert_part_next c part r here = ground arith

place_one-completed :
    (b : Bool) (i : ℕ) (part : Bytes) (r : Receiver)
    → r.completed ≤ (if b then insert_part i part r else r).completed
place_one-completed true i part r = insert_part-completed i part r
place_one-completed false i part r = omega arith

place_part-completed :
    (g part : Bytes) (i : ℕ) (hs : List (Option Bytes)) (r : Receiver)
    → r.completed ≤ (place_part g part i hs r).completed
unfolding place_part
place_part-completed g part i [] r = omega arith
place_part-completed g part i (h ∷ hs) r = omega (
  arith,
  place_one-completed (same_hash h g && is_missing r.parts i) i part r,
  place_part-completed g part (i + 1) hs
      (if same_hash h g && is_missing r.parts i then insert_part i part r else r),
)

insert_next-completed :
    (b : Bool) (c : ℕ) (part : Bytes) (r : Receiver)
    → b ≡ true
    → r.completed ≡ c
    → c < (if b then insert_part c part r else r).completed
insert_next-completed true c part r h here = insert_part_next c part r here
insert_next-completed false c part r h here = absurd (ground arith)

-- The part that is next, where it is the first of those that are looked at.
place_part_next :
    (g part : Bytes) (c : ℕ) (hs : List (Option Bytes)) (r : Receiver)
    → r.completed ≡ c
    → is_missing r.parts c ≡ true
    → c < (place_part g part c (some g ∷ hs) r).completed
unfolding place_part
place_part_next g part c hs r here missing =
    let taken : (same_hash (some g) g && is_missing r.parts c) ≡ true =
      ground (arith, bytes_eq_refl g, missing) in
    omega (
      arith,
      insert_next-completed (same_hash (some g) g && is_missing r.parts c) c part r taken here,
      place_part-completed g part (c + 1) hs
          (if same_hash (some g) g && is_missing r.parts c then insert_part c part r else r),
    )

skip_one :
    (b m : Bool) (i : ℕ) (part : Bytes) (r : Receiver)
    → m ≡ false
    → (if b && m then insert_part i part r else r) ≡ r
skip_one true true i part r h = absurd (ground arith)
skip_one true false i part r h = refl
skip_one false m i part r h = refl

-- A place that is filled is passed over.
place_part_filled :
    (g part : Bytes) (i : ℕ) (h : Option Bytes) (hs : List (Option Bytes)) (r : Receiver)
    → is_missing r.parts i ≡ false
    → place_part g part i (h ∷ hs) r ≡ place_part g part (suc i) hs r
unfolding place_part
place_part_filled g part i h hs r filled =
    let next : i + 1 ≡ suc i = omega arith in
    ap (place_part g part (i + 1) hs)
      (skip_one (same_hash h g) (is_missing r.parts i) i part r filled)
    ∙ ap (λ (n : ℕ). place_part g part n hs r) next

request_next-completed :
    (sent : Bool) (r : Receiver) → (request_next sent r).1.completed ≡ r.completed
unfolding request_next cancel
request_next-completed sent r = ground arith

round-completed :
    (rate : Option ℕ) (r : Receiver) → (note_round rate (widen r)).completed ≡ r.completed
unfolding note_round widen
round-completed rate r = ground arith

pub conclude_part-completed :
    (sent : Bool) (rate : Option ℕ) (r : Receiver)
    → (conclude_part sent rate r).1.completed ≡ r.completed
unfolding conclude_part
conclude_part-completed sent rate r =
    ground (arith, request_next-completed sent (note_round rate (widen r)), round-completed rate r)

pub responded_same :
    (response : Option ℕ) (r : Receiver)
    → ((responded response r).completed ≡ r.completed) × ((responded response r).parts ≡ r.parts)
unfolding note_response
responded_same response r = ground arith

-- The entry at a place, as the first of what is left from there.
drop_entry :
    (i : ℕ) (hs : List (Option Bytes)) (g : Bytes)
    → entry_at hs i ≡ some g
    → (tl : List (Option Bytes)) × (drop i hs ≡ some g ∷ tl)
drop_entry i [] g h = absurd (ground arith)
drop_entry zero (none ∷ hs) g h = absurd (ground arith)
drop_entry zero (some k ∷ hs) g h = (hs, ground arith)
drop_entry (suc i) (k ∷ hs) g h = drop_entry i hs g h

drop_before :
    (i : ℕ) (hs : List (Option Bytes)) (g : Bytes)
    → entry_at hs (suc i) ≡ some g
    → (k : Option Bytes) × (tl : List (Option Bytes)) × (drop i hs ≡ k ∷ some g ∷ tl)
drop_before i [] g h = absurd (ground arith)
drop_before zero (k ∷ hs) g h = let (tl, e) = drop_entry zero hs g h in (k, tl, ap (◌∷◌ k) e)
drop_before (suc i) (k ∷ hs) g h = drop_before i hs g h

-- The window from the part before the next one on, at the part that is next.
place_window_next :
    (g part : Bytes) (w c : ℕ) (hm : List (Option Bytes)) (r : Receiver)
    → r.completed ≡ c
    → c ≡ filled_prefix r.parts
    → entry_at hm c ≡ some g
    → is_missing r.parts c ≡ true
    → c < (place_part g part (c - 1) (take (suc (suc w)) (drop (c - 1) hm)) r).completed
place_window_next g part w zero hm r here full entry missing =
    let (tl, e) = drop_entry zero hm g entry in
    let back : zero - 1 ≡ zero = omega arith in
    rw (back, e) (place_part_next g part zero (take (suc w) tl) r here missing)
place_window_next g part w (suc c) hm r here full entry missing =
    let (k, tl, e) = drop_before c hm g entry in
    let back : suc c - 1 ≡ c = omega arith in
    let filled = is_missing_below c r.parts (omega (arith, full)) in
    rw (back, e, place_part_filled g part c k (some g ∷ take w tl) r filled)
      (place_part_next g part (suc c) (take w tl) r here missing)

module _ (map_hash : Bytes → Bytes) where
  -- The first of the parts that a consistent receiver misses is taken, whenever it comes: where the
  -- resource has not failed and its map hash is known, the pointer moves on.
  pub receive_part_next :
      (response rate : Option ℕ) (sent : Bool) (part : Bytes) (r : Receiver)
      → IsConsistent r
      → is_failed r.status ≡ false
      → r.completed < r.total_parts
      → entry_at r.hashmap r.completed ≡ some (map_hash part)
      → r.completed < (receive_part map_hash response rate sent part r).1.completed
  unfolding receive_part
  receive_part_next response rate sent part r h alive left entry =
      let r' : Receiver = record (responded response r) { status = transferring } in
      let (same, parts) = responded_same response r in
      let full : r.completed ≡ filled_prefix r'.parts = h.pointed ∙ ap filled_prefix (sym parts) in
      let room : filled_prefix r.parts < length r.parts =
        omega (arith, h.pointed, h.all_parts, left) in
      let missing : is_missing r'.parts r.completed ≡ true =
        ap (λ (ps : List (Option Bytes)). is_missing ps r.completed) parts
        ∙ ap (is_missing r.parts) h.pointed
        ∙ is_missing-filled_prefix r.parts room in
      let window : suc (suc (r.window - 2)) ≡ r.window = omega (arith, h.narrowest, h.wide) in
      let index : ℕ = r.completed - 1 in
      let placed =
        subst
          (λ (w : ℕ).
            r.completed
            < (place_part (map_hash part) part index (take w (drop index r.hashmap)) r').completed)
          window
          (place_window_next (map_hash part) part (r.window - 2) r.completed r.hashmap r' same full
            entry missing) in
      go (is_failed r.status) alive _ _ (
        omega (
          arith,
          placed,
          conclude_part-completed sent rate
              (place_part (map_hash part) part index (take r.window (drop index r.hashmap)) r'),
        ))
    where
      go :
          (b : Bool)
          → b ≡ false
          → (x y : Action × Receiver) → r.completed < y.1.completed
          → r.completed < (if b then x else y).1.completed
      go true e x y hy = absurd (ground arith)
      go false e x y hy = hy
