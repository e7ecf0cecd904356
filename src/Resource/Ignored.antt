-- ===== src/Resource/Ignored.antt =====
-- The last part of a request's window. From the second part on, the reception of a part looks at a
-- window that starts one part before the one that was requested.
use reticulum.Prelude.{
  ℕ, zero, suc, ◌+◌, ◌-◌, ◌≤◌, ◌≡◌, refl, ap, ◌∙◌, sym, Bytes, List, [], ◌∷◌, length, take, drop,
  length-take, All, Bool, true, false, Option, none, some, arith, if◌then◌else◌, leb, le→leb,
}
use reticulum.Resource.{transferring}
use reticulum.Resource.Request.{
  Receiver, Action, Request, sends, is_failed, entry_at, collect_missing, request_next, cancel,
}
use reticulum.Resource.Receive.{
  is_missing, same_hash, place_part, note_round, widen, conclude_part, receive_part,
}
use reticulum.Resource.Invariant.{responded}
use reticulum.Resource.Progress.{responded_same}
use reticulum.Resource.Mapped.{IsPart}

-- `n` map hashes from `i` on are known.
abbrev pub Known : List (Option Bytes) → ℕ → ℕ → Type 0
Known hm i zero = Unit {0}
Known hm i (suc n) = ((g : Bytes) × (entry_at hm i ≡ some g)) × Known hm (i + 1) n

collect_missing-Known :
    (w : ℕ) (hm : List (Option Bytes)) (i pn : ℕ) (ps : List (Option Bytes))
    → Known hm pn (length ps)
    → (collect_missing w hm i pn ps).1 ≡ false
unfolding collect_missing
collect_missing-Known w hm i pn [] h = refl
collect_missing-Known w hm i pn (some p ∷ ps) h =
    ground (arith, collect_missing-Known w hm i (pn + 1) ps h.1)
collect_missing-Known w hm i pn (none ∷ ps) ((g, e), h) =
    ground (arith, e, collect_missing-Known w hm (i + 1) (pn + 1) ps h)

collect_missing-IsPart :
    (w : ℕ) (hm : List (Option Bytes)) (i pn : ℕ) (ps : List (Option Bytes)) (j : ℕ) (g : Bytes)
    → i + length ps ≤ w
    → Known hm pn (length ps)
    → is_missing ps j ≡ true
    → entry_at hm (pn + j) ≡ some g
    → IsPart g (collect_missing w hm i pn ps).0
unfolding collect_missing
collect_missing-IsPart w hm i pn [] j g fits h missing e = absurd (ground arith)
collect_missing-IsPart w hm i pn (some p ∷ ps) zero g fits h missing e = absurd (ground arith)
collect_missing-IsPart w hm i pn (some p ∷ ps) (suc j) g fits h missing e =
    let place : pn + suc j ≡ (pn + 1) + j = omega arith in
    let e' : entry_at hm ((pn + 1) + j) ≡ some g = ap (entry_at hm) (sym place) ∙ e in
    rw (le→leb w i (omega arith))
      (collect_missing-IsPart w hm i (pn + 1) ps j g (omega arith) h.1 missing e')
collect_missing-IsPart w hm i pn (none ∷ ps) zero g fits h missing e =
    let e' : entry_at hm pn ≡ some g =
      ap (entry_at hm) (let p : pn ≡ pn + 0 = omega arith in p) ∙ e in
    ground (arith, e')
collect_missing-IsPart w hm i pn (none ∷ []) (suc j) g fits h missing e = absurd (ground arith)
collect_missing-IsPart w hm i pn (none ∷ p ∷ ps) (suc j) g fits ((k, known), h) missing e =
    let place : pn + suc j ≡ (pn + 1) + j = omega arith in
    let e' : entry_at hm ((pn + 1) + j) ≡ some g = ap (entry_at hm) (sym place) ∙ e in
    let ih = collect_missing-IsPart w hm (i + 1) (pn + 1) (p ∷ ps) j g (omega arith) h missing e' in
    let more : leb w (i + 1) ≡ false = le→leb w (i + 1) (omega arith) in
    ground (arith, known, more, ih)

place_part-none :
    (g part : Bytes) (i : ℕ) (hs : List (Option Bytes)) (r : Receiver)
    → All (λ m. same_hash m g ≡ false) hs
    → place_part g part i hs r ≡ r
unfolding place_part
place_part-none g part i [] r h = refl
place_part-none g part i (m ∷ hs) r h =
    rw (place_part, h.0) (place_part-none g part (i + 1) hs r h.1)

request_next-parts : (sent : Bool) (r : Receiver) → (request_next sent r).1.parts ≡ r.parts
unfolding request_next cancel
request_next-parts sent r = ground arith

round-parts : (rate : Option ℕ) (r : Receiver) → (note_round rate (widen r)).parts ≡ r.parts
unfolding note_round widen
round-parts rate r = ground arith

pub conclude_part-parts :
    (sent : Bool) (rate : Option ℕ) (r : Receiver) → (conclude_part sent rate r).1.parts ≡ r.parts
unfolding conclude_part
conclude_part-parts sent rate r =
    ground (arith, request_next-parts sent (note_round rate (widen r)), round-parts rate r)

either-parts :
    (b : Bool) (x y : Action × Receiver) (ps : List (Option Bytes))
    → x.1.parts ≡ ps
    → y.1.parts ≡ ps
    → (if b then x else y).1.parts ≡ ps
either-parts true x y ps hx hy = hx
either-parts false x y ps hx hy = hy

-- The window that a request asks for.
abbrev pub asked : Receiver → List (Option Bytes)
asked r = take r.window (drop r.completed r.parts)

request_next-Known :
    (r : Receiver)
    → is_failed r.status ≡ false
    → r.waiting_for_hmu ≡ false
    → Known r.hashmap r.completed (length (asked r))
    → request_next true r ≡ (
      sends (record {
        last_map_hash = none;
        requested_hashes = (collect_missing r.window r.hashmap 0 r.completed (asked r)).0;
      }),
      record r {
        requested = length (collect_missing r.window r.hashmap 0 r.completed (asked r)).0;
        arrived = 0;
        waits_for_response = true;
      },
    )
unfolding request_next
request_next-Known r alive here known =
    ground
      (arith, alive, here, collect_missing-Known r.window r.hashmap 0 r.completed (asked r) known)

module _ (map_hash : Bytes → Bytes) where
  receive_part_unmatched :
      (response rate : Option ℕ) (sent : Bool) (part : Bytes) (r : Receiver)
      → All
          (λ m. same_hash m (map_hash part) ≡ false)
          (take r.window (drop (r.completed - 1) r.hashmap))
      → (receive_part map_hash response rate sent part r).1.parts ≡ r.parts
  unfolding receive_part
  receive_part_unmatched response rate sent part r h =
      let r' : Receiver = record (responded response r) { status = transferring } in
      let same = (responded_same response r).1 in
      either-parts (is_failed r.status) _ _ r.parts same (
        conclude_part-parts sent rate _
        ∙ ap (λ (t : Receiver). t.parts)
            (place_part-none (map_hash part) part (r.completed - 1)
              (take r.window (drop (r.completed - 1) r.hashmap)) r' h)
        ∙ same)

  -- Where all map hashes of the window are known, a request asks for a part that is missing in it; and
  -- that part is not taken when it comes next, where its map hash is none of those at which reception
  -- looks: a window of the same length, which starts one part before and so leaves out the last part
  -- that was asked for.
  pub receive_part_ignored :
      (response rate : Option ℕ) (sent : Bool) (part : Bytes) (r : Receiver) (j : ℕ)
      → is_failed r.status ≡ false
      → r.waiting_for_hmu ≡ false
      → Known r.hashmap r.completed (length (asked r))
      → is_missing (asked r) j ≡ true
      → entry_at r.hashmap (r.completed + j) ≡ some (map_hash part)
      → All
          (λ m. same_hash m (map_hash part) ≡ false)
          (take r.window (drop (r.completed - 1) r.hashmap))
      → (q : Request) × ((request_next true r).0 ≡ sends q)
        × IsPart (map_hash part) q.requested_hashes
        × ((receive_part map_hash response rate sent part (request_next true r).1).1.parts
            ≡ r.parts)
  receive_part_ignored response rate sent part r j alive here known missing entry none_same =
      let hashes : List Bytes = (collect_missing r.window r.hashmap 0 r.completed (asked r)).0 in
      let made = request_next-Known r alive here known in
      (
        record { last_map_hash = none; requested_hashes = hashes },
        ap (λ (t : Action × Receiver). t.0) made,
        collect_missing-IsPart r.window r.hashmap 0 r.completed (asked r) j (map_hash part)
            (omega (arith, length-take r.window (drop r.completed r.parts))) known missing entry,
        ap (λ (t : Action × Receiver). (receive_part map_hash response rate sent part t.1).1.parts)
              made
            ∙ receive_part_unmatched response rate sent part
                (record r { requested = length hashes; arrived = 0; waits_for_response = true })
                none_same,
      )
