-- ===== src/Identity/Rotation.antt =====
-- The ratchet and the random hash that Destination.announce puts into an announce.
use reticulum.Prelude.{
  ℕ, ◌+◌, ◌/◌, ◌%◌, ◌≤◌, ◌<◌, ◌≡◌, ◌≢◌, ◌⊎◌, inl, inr, refl, ap, Bytes, length, length-append,
  length-take, take, List, [], ◌∷◌, ◌++◌, Bool-cases, true, false, Option, none, some, ltb, lt→ltb,
  arith,
}
use reticulum.Prelude.Results.{ok}
use reticulum.Identity.{Curves, ratchetsize}
use reticulum.Identity.Known.{Known, remember_ratchet}
use reticulum.Identity.Destination.{
  Destination, Node, Moment, clean_ratchets, persist_ratchets, rotate_ratchets,
}
use reticulum.Identity.Announcing.{announce_random_hash, announce_ratchet, ratchet_after}

-- Ratchets are off; or on, with a disk that takes the file, and there is one or it is time for one,
-- as it is right after enable_ratchets, which sets the time of the latest to 0.
abbrev pub Usable : Destination → Moment → Type 0
Usable d m =
    (d.ratchets ≡ none)
    ⊎ ((ratchets : List Bytes) × (d.ratchets ≡ some ratchets)
        × (m.can_write ≡ true)
        × ((ratchets ≢ []) ⊎ (d.latest_ratchet_time + d.ratchet_interval < m.now)))

clean_lem :
    (retained : ℕ) (first : Bytes) (others : List Bytes)
    → (kept : List Bytes) × (clean_ratchets retained (first ∷ others) ≡ first ∷ kept)
unfolding clean_ratchets
clean_lem retained first others = elim (Bool-cases (ltb retained (length (first ∷ others)))) [
  | inl over ↦ (take 511 others, rw (clean_ratchets, over) refl)
  | inr within ↦ (others, rw (clean_ratchets, within) refl)
]

module _ (x : Curves) (m : Moment) where
  -- A node whose ratchets and known ratchets may have changed.
  abbrev pub rotated_node : Node → Option (List Bytes) → ℕ → Known → Node
  rotated_node n ratchets time known = record n {
    destination = record n.destination { ratchets = ratchets; latest_ratchet_time = time };
    known = known;
  }

  -- Rotation leaves a first ratchet.
  abbrev Rotates : Destination → Type 0
  Rotates d =
      (first : Bytes) × (others : List Bytes) × (time : ℕ) × (rotate_ratchets m d
        ≡ (ok tt, record d { ratchets = some (first ∷ others); latest_ratchet_time = time }))

  due_lem :
      (d : Destination) (ratchets : List Bytes)
      → d.ratchets ≡ some ratchets
      → m.can_write ≡ true
      → ltb (d.latest_ratchet_time + d.ratchet_interval) m.now ≡ true
      → Rotates d
  unfolding rotate_ratchets persist_ratchets
  due_lem d ratchets h w due =
      let (kept, cleaned) = clean_lem d.retained_ratchets m.new_ratchet ratchets in
      (
        m.new_ratchet,
        kept,
        m.now,
        rw (rotate_ratchets, h, due, persist_ratchets, w)
            (λ i. (ok tt, record d { ratchets = some (cleaned i); latest_ratchet_time = m.now })),
      )

  early_lem :
      (d : Destination) (ratchets : List Bytes)
      → d.ratchets ≡ some ratchets
      → ratchets ≢ []
      → ltb (d.latest_ratchet_time + d.ratchet_interval) m.now ≡ false
      → Rotates d
  unfolding rotate_ratchets
  early_lem d [] h some_ratchet early = absurd (some_ratchet refl)
  early_lem d (first ∷ others) h some_ratchet early = (
    first,
    others,
    d.latest_ratchet_time,
    rw (rotate_ratchets, h, early) (λ i. (ok tt, record d { ratchets = h i })),
  )

  rotate_lem :
      (d : Destination) (ratchets : List Bytes)
      → d.ratchets ≡ some ratchets
      → m.can_write ≡ true
      → (ratchets ≢ []) ⊎ (d.latest_ratchet_time + d.ratchet_interval < m.now)
      → Rotates d
  rotate_lem d ratchets h w (inr due) = due_lem d ratchets h w (lt→ltb _ _ due)
  rotate_lem d ratchets h w (inl some_ratchet) =
      elim (Bool-cases (ltb (d.latest_ratchet_time + d.ratchet_interval) m.now)) [
        | inl due ↦ due_lem d ratchets h w due
        | inr early ↦ early_lem d ratchets h some_ratchet early
      ]

  pub ratchet_lem :
      (n : Node)
      → Usable n.destination m
      → ((k : Bytes) → length (x.x_public k) ≡ ratchetsize)
      → (ratchet : Bytes) × (ratchets : Option (List Bytes)) × (time : ℕ) × (known : Known)
        × (announce_ratchet x m n ≡ (ok ratchet, rotated_node n ratchets time known))
        × (((n.destination.ratchets ≡ none) × (ratchet ≡ [])) ⊎ (length ratchet ≡ ratchetsize))
  unfolding announce_ratchet ratchet_after
  ratchet_lem n usable long = elim usable [
    | inl off ↦ (
      [],
      none,
      n.destination.latest_ratchet_time,
      n.known,
      rw (announce_ratchet, off)
          (λ i. (ok [], record n { destination = record n.destination { ratchets = off i } })),
      inl (off, refl),
    )
    | inr (earlier, on, w, ready) ↦
        let (first', others', time, rotated) = rotate_lem n.destination earlier on w ready in
        (
          x.x_public first',
          some (first' ∷ others'),
          time,
          remember_ratchet n.destination.hash (x.x_public first') n.known,
          rw (announce_ratchet, on) (ap (ratchet_after x m n) rotated),
          inr (long first'),
        )
  ]

  pub random_lem :
      m.now < 0x10000000000
      → 5 ≤ length m.random_hash
      → (random : Bytes) × (announce_random_hash m ≡ some random) × (length random ≡ 10)
  unfolding announce_random_hash
  random_lem h l =
      let now : ℕ = m.now in
      let digits : Bytes =
        now / 0x100000000
        ∷ now / 0x1000000 % 0x100
        ∷ now / 0x10000 % 0x100
        ∷ now / 0x100 % 0x100
        ∷ now % 0x100
        ∷ [] in
      (
        take 5 m.random_hash ++ digits,
        rw (announce_random_hash, lt→ltb _ _ h) refl,
        omega (arith, length-append (take 5 m.random_hash) digits, length-take 5 m.random_hash),
      )
