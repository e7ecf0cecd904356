-- ===== src/Resource/Agreement.antt =====
-- The parts of a receiver and those that were sent: each part goes into its own place.
use reticulum.Prelude.{
  ℕ, zero, suc, ◌+◌, ◌-◌, ◌≤◌, ◌≡◌, refl, inl, inr, ap, ◌∙◌, sym, Bytes, bytes_eq_sound, List, [],
  ◌∷◌, length, take, drop, get_elem?, Bool, true, false, ◌&&◌, Option, none, some, arith,
  if◌then◌else◌,
}
use reticulum.Resource.{transferring}
use reticulum.Resource.Slices.{join}
use reticulum.Resource.Mapped.{IsPart}
use reticulum.Resource.Ignored.{conclude_part-parts}
use reticulum.Resource.Progress.{responded_same}
use reticulum.Resource.Request.{Action, Receiver, is_failed}
use reticulum.Resource.Receive.{
  receive_part, set_at, is_missing, insert_part, same_hash, place_part,
}
use reticulum.Resource.Invariant.{responded}
use reticulum.Resource.Consistent.{count_filled}
use reticulum.Resource.Assemble.{join_parts}

-- The parts that are there are those that were sent, each in its place.
abbrev pub Agrees : List Bytes → List (Option Bytes) → Type 0
Agrees [] [] = Unit {0}
Agrees [] (p ∷ ps) = ⊥
Agrees (s ∷ ss) [] = ⊥
Agrees (s ∷ ss) (none ∷ ps) = Agrees ss ps
Agrees (s ∷ ss) (some p ∷ ps) = (p ≡ s) × Agrees ss ps

pub Agrees-join :
    (ss : List Bytes) (ps : List (Option Bytes))
    → Agrees ss ps
    → count_filled ps ≡ length ps
    → join_parts ps ≡ some (join ss)
unfolding join_parts join
Agrees-join [] [] h full = refl
Agrees-join [] (p ∷ ps) h full = absurd h
Agrees-join (s ∷ ss) [] h full = absurd h
Agrees-join (s ∷ ss) (none ∷ ps) h full = absurd (omega (arith, full, count_filled-le ps))
  where
    count_filled-le : (ps : List (Option Bytes)) → count_filled ps ≤ length ps
    count_filled-le [] = omega arith
    count_filled-le (none ∷ ps) = omega (arith, count_filled-le ps)
    count_filled-le (some p ∷ ps) = omega (arith, count_filled-le ps)
Agrees-join (s ∷ ss) (some p ∷ ps) (e, h) full =
    ground (arith, Agrees-join ss ps h (omega (arith, full)))

-- The map hashes that are known are those of the parts that were sent.
abbrev pub Maps : (Bytes → Bytes) → List Bytes → List (Option Bytes) → Type 0
Maps map_hash [] [] = Unit {0}
Maps map_hash [] (h ∷ hs) = ⊥
Maps map_hash (s ∷ ss) [] = ⊥
Maps map_hash (s ∷ ss) (none ∷ hs) = Maps map_hash ss hs
Maps map_hash (s ∷ ss) (some h ∷ hs) = (h ≡ map_hash s) × Maps map_hash ss hs

-- Where an entry has the hash of a part, the part was sent at that place.
abbrev Places : List Bytes → Bytes → Bytes → ℕ → List (Option Bytes) → Type 0
Places ss p g i [] = Unit {0}
Places ss p g i (m ∷ hs) =
    (same_hash m g ≡ true → get_elem? ss i ≡ some p) × Places ss p g (i + 1) hs

Agrees-set_at :
    (ss : List Bytes) (ps : List (Option Bytes)) (i : ℕ) (p : Bytes)
    → Agrees ss ps
    → get_elem? ss i ≡ some p
    → Agrees ss (set_at i p ps)
unfolding set_at
Agrees-set_at [] [] i p h e = h
Agrees-set_at [] (q ∷ ps) i p h e = absurd h
Agrees-set_at (s ∷ ss) [] i p h e = absurd h
Agrees-set_at (s ∷ ss) (none ∷ ps) zero p h e = (ground arith, h)
Agrees-set_at (s ∷ ss) (some q ∷ ps) zero p h e = (ground arith, h.1)
Agrees-set_at (s ∷ ss) (none ∷ ps) (suc i) p h e = Agrees-set_at ss ps i p h e
Agrees-set_at (s ∷ ss) (some q ∷ ps) (suc i) p h e = (h.0, Agrees-set_at ss ps i p h.1 e)

place_one-Agrees :
    (ss : List Bytes) (i : ℕ) (p : Bytes) (r : Receiver) (b m : Bool)
    → (b ≡ true → get_elem? ss i ≡ some p)
    → Agrees ss r.parts
    → Agrees ss (if b && m then insert_part i p r else r).parts
unfolding insert_part
place_one-Agrees ss i p r true true e h = Agrees-set_at ss r.parts i p h (e refl)
place_one-Agrees ss i p r true false e h = h
place_one-Agrees ss i p r false m e h = h

place_part-Agrees :
    (ss : List Bytes) (g p : Bytes) (i : ℕ) (hs : List (Option Bytes)) (r : Receiver)
    → Places ss p g i hs
    → Agrees ss r.parts
    → Agrees ss (place_part g p i hs r).parts
unfolding place_part
place_part-Agrees ss g p i [] r e h = h
place_part-Agrees ss g p i (m ∷ hs) r e h =
    place_part-Agrees ss g p (i + 1) hs _ e.1
      (place_one-Agrees ss i p r (same_hash m g) (is_missing r.parts i) e.0 h)

Places-take :
    (ss : List Bytes) (p g : Bytes) (n i : ℕ) (hs : List (Option Bytes))
    → Places ss p g i hs
    → Places ss p g i (take n hs)
Places-take ss p g zero i hs h = tt
Places-take ss p g (suc n) i [] h = tt
Places-take ss p g (suc n) i (m ∷ hs) h = (h.0, Places-take ss p g n (i + 1) hs h.1)

Places-drop :
    (ss : List Bytes) (p g : Bytes) (n i j : ℕ) (hs : List (Option Bytes))
    → i + n ≡ j
    → Places ss p g i hs
    → Places ss p g j (drop n hs)
Places-drop ss p g zero i j hs e h = let e' : i ≡ j = omega arith in rw (sym e') h
Places-drop ss p g (suc n) i j [] e h = tt
Places-drop ss p g (suc n) i j (m ∷ hs) e h = Places-drop ss p g n (i + 1) j hs (omega arith) h.1

-- No two parts that were sent have one map hash.
abbrev pub IsUnclashing : (Bytes → Bytes) → List Bytes → Bytes → Type 0
IsUnclashing map_hash ss p = (s : Bytes) → IsPart s ss → map_hash s ≡ map_hash p → s ≡ p

drop_head :
    (i : ℕ) (full : List Bytes) (s : Bytes) (ss : List Bytes)
    → drop i full ≡ s ∷ ss
    → (get_elem? full i ≡ some s) × (drop (suc i) full ≡ ss)
drop_head zero [] s ss h = absurd (ground arith)
drop_head zero (x ∷ full) s ss h = (ground arith, ground arith)
drop_head (suc i) [] s ss h = absurd (ground arith)
drop_head (suc i) (x ∷ full) s ss h = drop_head i full s ss h

Maps-Places :
    (map_hash : Bytes → Bytes) (full ss : List Bytes) (hm : List (Option Bytes)) (i : ℕ) (p : Bytes)
    → drop i full ≡ ss
    → Maps map_hash ss hm
    → IsUnclashing map_hash ss p
    → Places full p (map_hash p) i hm
Maps-Places map_hash full [] [] i p e h un = tt
Maps-Places map_hash full [] (m ∷ hm) i p e h un = absurd h
Maps-Places map_hash full (s ∷ ss) [] i p e h un = absurd h
Maps-Places map_hash full (s ∷ ss) (none ∷ hm) i p e h un =
    let next : i + 1 ≡ suc i = omega arith in
    (
      λ same. absurd (let never : false ≡ true = same in cc),
      Maps-Places map_hash full ss hm (i + 1) p (rw next (drop_head i full s ss e).1) h
          (λ t here. un t (inr here)),
    )
Maps-Places map_hash full (s ∷ ss) (some m ∷ hm) i p e h un =
    let next : i + 1 ≡ suc i = omega arith in
    (
      λ same.
          (drop_head i full s ss e).0
          ∙ ap some (un s (inl refl) (sym h.0 ∙ bytes_eq_sound m (map_hash p) same)),
      Maps-Places map_hash full ss hm (i + 1) p (rw next (drop_head i full s ss e).1) h.1
          (λ t here. un t (inr here)),
    )

either-Agrees :
    (b : Bool) (x y : Action × Receiver) (ss : List Bytes)
    → Agrees ss x.1.parts
    → Agrees ss y.1.parts
    → Agrees ss (if b then x else y).1.parts
either-Agrees true x y ss hx hy = hx
either-Agrees false x y ss hx hy = hy

-- A part that was sent goes into its own place, or nowhere: where the known map hashes are those of
-- the parts that were sent, and no other of them has the map hash of the part that came, the parts of
-- a receiver still agree with those sent.
pub receive_part-Agrees :
    (map_hash : Bytes → Bytes) (response rate : Option ℕ) (sent : Bool) (p : Bytes)
    (ss : List Bytes) (r : Receiver)
    → Maps map_hash ss r.hashmap
    → IsUnclashing map_hash ss p
    → Agrees ss r.parts
    → Agrees ss (receive_part map_hash response rate sent p r).1.parts
unfolding receive_part
receive_part-Agrees map_hash response rate sent p ss r maps un h =
    let r' : Receiver = record (responded response r) { status = transferring } in
    let index : ℕ = r.completed - 1 in
    let same = (responded_same response r).1 in
    let places = Places-take ss p (map_hash p) r.window index (drop index r.hashmap) (
      Places-drop ss p (map_hash p) index 0 index r.hashmap (omega arith)
        (Maps-Places map_hash ss ss r.hashmap 0 p refl maps un)) in
    let agree : Agrees ss r'.parts = rw same h in
    either-Agrees (is_failed r.status) _ _ ss agree (
      rw
        (conclude_part-parts sent rate
          (place_part (map_hash p) p index (take r.window (drop index r.hashmap)) r'))
        (place_part-Agrees ss (map_hash p) p index _ r' places agree))
