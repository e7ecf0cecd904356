-- ===== src/Interface/Queue.antt =====
-- Interface.process_announce_queue.
use reticulum.Prelude.{
  ℕ, ◌+◌, ◌*◌, ◌/◌, ◌≡◌, refl, inl, inr, ap, ◌∙◌, Bytes, bytes_eq, bytes_eq_refl, List, [], ◌∷◌,
  length, Bool, true, false, ◌&&◌, ltb, ◌==◌, Bool-cases, Option, none, some, min, arith, All,
  if◌then◌else◌,
}
use reticulum.Interface.{Queued, Interface}
use reticulum.Interface.Limit.{sent_announce}

-- QUEUED_ANNOUNCE_LIFE, a day
abbrev pub queued_announce_life : ℕ
queued_announce_life = 24 * 60 * 60 * 1000

unfoldable pub is_stale : ℕ → Queued → Bool
is_stale now a = ltb (a.time + queued_announce_life) now

-- `==` on two entries.
abbrev pub same_entry : Queued → Queued → Bool
same_entry a b =
    bytes_eq a.destination b.destination
    && (a.time == b.time && (a.hops == b.hops && (a.emitted == b.emitted && bytes_eq a.raw b.raw)))

unfoldable pub stale_entries : ℕ → List Queued → List Queued
stale_entries now [] = []
stale_entries now (a ∷ q) =
    let rest = stale_entries now q in if is_stale now a then a ∷ rest else rest

-- `if s in queue: queue.remove(s)`
unfoldable pub remove_entry : Queued → List Queued → List Queued
remove_entry s [] = []
remove_entry s (a ∷ q) = let rest = remove_entry s q in if same_entry a s then q else a ∷ rest

unfoldable pub remove_entries : List Queued → List Queued → List Queued
remove_entries [] q = q
remove_entries (s ∷ ss) q = remove_entries ss (remove_entry s q)

-- `min(entry["hops"] for entry in queue)`, of a queue with a first entry.
unfoldable pub min_hops : ℕ → List Queued → ℕ
min_hops m [] = m
min_hops m (a ∷ q) = min_hops (min m a.hops) q

unfoldable pub with_hops : ℕ → List Queued → List Queued
with_hops h [] = []
with_hops h (a ∷ q) = let rest = with_hops h q in if a.hops == h then a ∷ rest else rest

-- `entries.sort(key = time)`, which keeps the order of entries of one time.
unfoldable pub insert_by_time : Queued → List Queued → List Queued
insert_by_time a [] = a ∷ []
insert_by_time a (b ∷ q) =
    let rest = insert_by_time a q in if ltb b.time a.time then b ∷ rest else a ∷ b ∷ q

unfoldable pub sort_by_time : List Queued → List Queued
sort_by_time [] = []
sort_by_time (a ∷ q) = insert_by_time a (sort_by_time q)

-- The transmission time of an entry by the share of the bitrate that announces may take, in whole
-- milliseconds; `announce_cap` is in percent.
abbrev pub wait_time : Interface → Queued → ℕ
wait_time i a = length a.raw * 8 * 1000 * 100 / (i.bitrate * i.announce_cap)

-- What a run of the queue did: what was sent, and whether a timer runs it again.
pub record Processed : Type 0 where
  pub interface : Interface
  pub sent : Option Bytes
  pub again : Bool

-- The `except`: the queue is cleared.
abbrev pub cleared : Interface → Processed
cleared i = record { interface = record i { announce_queue = [] }; sent = none; again = false }

abbrev pub after_sending : ℕ → Queued → Interface → Processed
after_sending now a i =
    let left = remove_entry a i.announce_queue in
    record {
      interface = record (sent_announce now i) { announce_queue = left };
      sent = some a.raw;
      again = ltb 0 (length left);
    }

-- `sends` is whether the interface's own `process_outgoing` returns.
unfoldable pub send_entry : (Bytes → Bool) → ℕ → Queued → Interface → Processed
send_entry sends now a i =
    if i.bitrate * i.announce_cap == 0
    then cleared i
    else (let i' : Interface = record i { announce_allowed_at = now + wait_time i a } in
        if sends a.raw then after_sending now a i' else cleared i')

-- The first of a list, for the rest of the code; of no entries, nothing is sent.
unfoldable pub send_first : (Bytes → Bool) → ℕ → List Queued → Interface → Processed
unfolding send_entry
send_first sends now [] i = record { interface = i; sent = none; again = false }
send_first sends now (a ∷ q) i = send_entry sends now a i

unfoldable pub candidates : List Queued → List Queued
candidates [] = []
candidates (a ∷ q) = sort_by_time (with_hops (min_hops a.hops q) (a ∷ q))

unfoldable pub process_announce_queue : (Bytes → Bool) → ℕ → Interface → Processed
unfolding send_first candidates remove_entries
process_announce_queue sends now i =
    let fresh = remove_entries (stale_entries now i.announce_queue) i.announce_queue in
    send_first sends now (candidates fresh) (record i { announce_queue = fresh })

-- The entries of a queue that are not stale, in their order.
unfoldable pub fresh_entries : ℕ → List Queued → List Queued
fresh_entries now [] = []
fresh_entries now (a ∷ q) =
    let rest = fresh_entries now q in if is_stale now a then rest else a ∷ rest

same_entry_refl : (a : Queued) → same_entry a a ≡ true
same_entry_refl a = ground (arith, bytes_eq_refl a.destination, bytes_eq_refl a.raw)

remove_entry-keeps :
    (now : ℕ) (a s : Queued) (q : List Queued)
    → is_stale now a ≡ false
    → is_stale now s ≡ true
    → remove_entry s (a ∷ q) ≡ a ∷ remove_entry s q
unfolding remove_entry is_stale
remove_entry-keeps now a s q h hs = ground arith

remove_entries-keeps :
    (now : ℕ) (a : Queued) (ss q : List Queued)
    → is_stale now a ≡ false
    → All (λ s. is_stale now s ≡ true) ss
    → remove_entries ss (a ∷ q) ≡ a ∷ remove_entries ss q
unfolding remove_entries
remove_entries-keeps now a [] q h hs = refl
remove_entries-keeps now a (s ∷ ss) q h hs =
    rw (remove_entry-keeps now a s q h hs.0)
      (remove_entries-keeps now a ss (remove_entry s q) h hs.1)

stale_entries-stale :
    (now : ℕ) (q : List Queued) → All (λ s. is_stale now s ≡ true) (stale_entries now q)
unfolding stale_entries
stale_entries-stale now [] = tt
stale_entries-stale now (a ∷ q) = ground (arith, stale_entries-stale now q)

-- Removing the stale entries one by one leaves just the entries that are not stale.
pub remove_entries-stale :
    (now : ℕ) (q : List Queued) → remove_entries (stale_entries now q) q ≡ fresh_entries now q
unfolding remove_entries stale_entries fresh_entries remove_entry
remove_entries-stale now [] = refl
remove_entries-stale now (a ∷ q) = elim (Bool-cases (is_stale now a)) [
  | inl old ↦ ground (arith, old, same_entry_refl a, remove_entries-stale now q)
  | inr young ↦ rw young (
      remove_entries-keeps now a (stale_entries now q) q young (stale_entries-stale now q)
      ∙ ap (◌∷◌ a) (remove_entries-stale now q))
]
