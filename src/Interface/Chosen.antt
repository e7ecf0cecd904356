-- ===== src/Interface/Chosen.antt =====
-- Which announce Interface.process_announce_queue sends.
use reticulum.Prelude.{
  ℕ, ◌+◌, ◌*◌, ◌≤◌, ◌<◌, ◌≡◌, refl, ◌⊎◌, inl, inr, ap, ◌∙◌, Bytes, List, [], ◌∷◌, length, Bool,
  true, ltb, ltb→lt, ltb→le, ==_iff, ne→==, ◌==◌, Bool-cases, some, min, arith, All,
}
use reticulum.Interface.{Queued, Interface}
use reticulum.Interface.Limit.{sent_announce}
use reticulum.Interface.Queue.{
  Processed, after_sending, wait_time, remove_entry, min_hops, with_hops, insert_by_time,
  sort_by_time, candidates, send_first, send_entry, process_announce_queue, fresh_entries,
  remove_entries-stale,
}

abbrev pub In : Queued → List Queued → Type 0
In e [] = ⊥
In e (a ∷ q) = (a ≡ e) ⊎ In e q

min_hops-le : (m : ℕ) (q : List Queued) → (min_hops m q ≤ m) × All (λ b. min_hops m q ≤ b.hops) q
unfolding min_hops
min_hops-le m [] = (omega arith, tt)
min_hops-le m (a ∷ q) = ground (arith, min_hops-le (min m a.hops) q)

abbrev First : Queued → List Queued → Type 0
First e q = In e q × All (λ b. e.time ≤ b.time) q

since-le : (t u : ℕ) (q : List Queued) → t ≤ u → All (λ b. u ≤ b.time) q → All (λ b. t ≤ b.time) q
since-le t u [] h hs = tt
since-le t u (a ∷ q) h hs = ground (arith, since-le t u q h)

sort_by_time-head :
    (a : Queued) (q : List Queued)
    → (e : Queued) × (rest : List Queued) × (sort_by_time (a ∷ q) ≡ e ∷ rest) × First e (a ∷ q)
unfolding sort_by_time insert_by_time
sort_by_time-head a [] = (a, [], refl, (inl refl, (omega arith, tt)))
sort_by_time-head a (b ∷ q) =
    let (e, rest, same, (there, first)) = sort_by_time-head b q in
    elim (Bool-cases (ltb e.time a.time)) [
      | inl later ↦ (
        e,
        insert_by_time a rest,
        ap (insert_by_time a) same ∙ rw later refl,
        (inr there, (omega (arith, ltb→lt _ _ later), first)),
      )
      | inr earlier ↦ (
        a,
        e ∷ rest,
        ap (insert_by_time a) same ∙ rw earlier refl,
        (inl refl, (omega arith, since-le a.time e.time (b ∷ q) (ltb→le _ _ earlier) first)),
      )
    ]

with_hops-In : (m : ℕ) (e : Queued) (q : List Queued) → In e (with_hops m q) → In e q × (e.hops ≡ m)
unfolding with_hops
with_hops-In m e [] h = absurd h
with_hops-In m e (a ∷ q) h = ground (arith, with_hops-In m e q)

-- Behind in the order of the queue: more hops, or as many and no earlier.
abbrev pub Behind : Queued → Queued → Type 0
Behind e b = (e.hops < b.hops) ⊎ ((e.hops ≡ b.hops) × (e.time ≤ b.time))

with_hops-Behind :
    (m : ℕ) (e : Queued) (q : List Queued)
    → e.hops ≡ m
    → All (λ b. m ≤ b.hops) q
    → All (λ b. e.time ≤ b.time) (with_hops m q)
    → All (Behind e) q
unfolding with_hops
with_hops-Behind m e [] here h t = tt
with_hops-Behind m e (a ∷ q) here h t = elim (Bool-cases (a.hops == m)) [
  | inl same ↦
      (let t' = rw same at t in
        (
          inr (omega (arith, here, (==_iff a.hops m).0 same), t'.0),
          with_hops-Behind m e q here h.1 t'.1,
        ))
  | inr other ↦ (ground (arith, here, other), with_hops-Behind m e q here h.1 (rw other at t))
]

-- Some entry has the fewest hops.
with_hops-some :
    (m : ℕ) (q : List Queued)
    → (m ≡ min_hops m q)
      ⊎ ((a : Queued) × (rest : List Queued) × (with_hops (min_hops m q) q ≡ a ∷ rest))
unfolding min_hops with_hops
with_hops-some m [] = inl refl
with_hops-some m (a ∷ q) = elim (with_hops-some (min m a.hops) q) [
  | inl least ↦ elim (Bool-cases (ltb a.hops m)) [
    | inl nearer ↦
        let here : (a.hops == min_hops (min m a.hops) q) ≡ true = ground (arith, least, nearer) in
        inr (a, with_hops (min_hops (min m a.hops) q) q, rw here refl)
    | inr further ↦ inl (omega (arith, least, ltb→le _ _ further))
  ]
  | inr (b, rest, found) ↦ elim (Bool-cases (a.hops == min_hops (min m a.hops) q)) [
    | inl here ↦ inr (a, with_hops (min_hops (min m a.hops) q) q, rw here refl)
    | inr other ↦ inr (b, rest, rw other found)
  ]
]

with_hops-first :
    (a : Queued) (q : List Queued)
    → (b : Queued) × (rest : List Queued) × (with_hops (min_hops a.hops q) (a ∷ q) ≡ b ∷ rest)
unfolding with_hops
with_hops-first a q = elim (Bool-cases (a.hops == min_hops a.hops q)) [
  | inl here ↦ (a, with_hops (min_hops a.hops q) q, rw here refl)
  | inr other ↦ elim (with_hops-some a.hops q) [
    | inl least ↦ absurd (ground (arith, least, other))
    | inr (b, rest, found) ↦ (b, rest, rw other found)
  ]
]

pub candidates_lem :
    (a : Queued) (q : List Queued)
    → (e : Queued) × (rest : List Queued) × (candidates (a ∷ q) ≡ e ∷ rest)
      × (In e (a ∷ q) × All (Behind e) (a ∷ q))
unfolding candidates
candidates_lem a q =
    let (b, more, found) = with_hops-first a q in
    let (e, rest, same, (there, first)) = sort_by_time-head b more in
    let (in_queue, hops) = with_hops-In (min_hops a.hops q) e (a ∷ q) (rw found there) in
    let least = with_hops-Behind _ e (a ∷ q) hops (min_hops-le a.hops q) (rw found first) in
    (e, rest, ap sort_by_time found ∙ same, (in_queue, least))

send_first-works :
    (sends : Bytes → Bool) (now : ℕ) (e : Queued) (rest : List Queued) (i : Interface)
    → sends e.raw ≡ true
    → 0 < i.bitrate * i.announce_cap
    → send_first sends now (e ∷ rest) i
      ≡ after_sending now e (record i { announce_allowed_at = now + wait_time i e })
unfolding send_first send_entry
send_first-works sends now e rest i works share =
    rw (ne→== (i.bitrate * i.announce_cap) 0 (omega arith), works) refl

-- Where sending works, the bitrate and the cap are positive and the queue holds an entry that is not stale, the entry that is sent is one
-- of those with the fewest hops, and of these none is older; it alone leaves the queue, with the
-- stale entries, and a timer is set just where the queue holds another.
pub process_announce_queue-sent :
    (sends : Bytes → Bool) (now : ℕ) (i : Interface) (a : Queued) (q : List Queued)
    → ((raw : Bytes) → sends raw ≡ true)
    → 0 < i.bitrate * i.announce_cap
    → fresh_entries now i.announce_queue ≡ a ∷ q
    → (e : Queued) × (In e (a ∷ q) × All (Behind e) (a ∷ q))
      × ((process_announce_queue sends now i).sent ≡ some e.raw)
      × ((process_announce_queue sends now i).interface.announce_queue ≡ remove_entry e (a ∷ q))
      × ((process_announce_queue sends now i).interface.announce_allowed_at ≡ now + wait_time i e)
      × ((process_announce_queue sends now i).again ≡ ltb 0 (length (remove_entry e (a ∷ q))))
unfolding process_announce_queue sent_announce
process_announce_queue-sent sends now i a q works share fresh =
    let (e, rest, chosen, behind) = candidates_lem a q in
    let j : Interface = record i { announce_queue = a ∷ q } in
    let same : process_announce_queue sends now i
        ≡ after_sending now e (record j { announce_allowed_at = now + wait_time j e }) =
      rw (remove_entries-stale now i.announce_queue, fresh, chosen)
        (send_first-works sends now e rest j (works e.raw) share) in
    (
      e,
      behind,
      ap (λ (p : Processed). p.sent) same,
      ap (λ (p : Processed). p.interface.announce_queue) same,
      ap (λ (p : Processed). p.interface.announce_allowed_at) same,
      ap (λ (p : Processed). p.again) same,
    )
