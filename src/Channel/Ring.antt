-- ===== src/Channel/Ring.antt =====
-- Channel._emplace_envelope: where an envelope goes in a ring.
use reticulum.Prelude.{
  ℕ, ◌-◌, ◌≡◌, ◌⊎◌, inl, inr, refl, ap, Bool-cases, List, [], ◌∷◌, ◌++◌, Bool, true, false, not,
  ◌&&◌, ltb, ◌==◌, arith, if◌then◌else◌,
}
use reticulum.Channel.{Envelope}

-- `envelope.sequence < existing.sequence and not (next_rx - envelope.sequence) > SEQ_MAX//2`. The
-- difference is negative for a sequence ahead of `next_rx`, where `-` gives 0: neither is above.
abbrev pub goes_before : ℕ → Envelope → Envelope → Bool
goes_before next_rx e existing =
    ltb e.sequence existing.sequence && not (ltb 32767 (next_rx - e.sequence))

abbrev pub tracked_envelope : Envelope → Envelope
tracked_envelope e = record e { tracked = true }

-- Whether the envelope was new, and the ring.
unfoldable pub emplace_envelope : ℕ → Envelope → List Envelope → Bool × List Envelope
emplace_envelope next_rx e [] = (true, tracked_envelope e ∷ [])
emplace_envelope next_rx e (existing ∷ ring) =
    let (is_new, ring') = emplace_envelope next_rx e ring in
    if e.sequence == existing.sequence
    then (false, existing ∷ ring)
    else if goes_before next_rx e existing
    then (true, tracked_envelope e ∷ existing ∷ ring)
    else (is_new, existing ∷ ring')

abbrev pub Has : ℕ → List Envelope → Type 0
Has s [] = ⊥
Has s (e ∷ ring) = (e.sequence ≡ s) ⊎ Has s ring

-- A new envelope is put in at one place, and all else stays as it was and in order; one that is
-- refused has the sequence number of an envelope in the ring, which does not change.
pub emplace_envelope-cases :
    (next_rx : ℕ) (e : Envelope) (ring : List Envelope)
    → ((emplace_envelope next_rx e ring ≡ (false, ring)) × Has e.sequence ring)
      ⊎ ((front : List Envelope) × (back : List Envelope) × (ring ≡ front ++ back)
          × (emplace_envelope next_rx e ring ≡ (true, front ++ tracked_envelope e ∷ back)))
unfolding emplace_envelope
emplace_envelope-cases next_rx e [] = inr ([], [], refl, refl)
emplace_envelope-cases next_rx e (x ∷ ring) = elim (Bool-cases (e.sequence == x.sequence)) [
  | inl same ↦ inl (rw same, inl (ground arith))
  | inr other ↦ elim (Bool-cases (goes_before next_rx e x)) [
    | inl before ↦ inr ([], x ∷ ring, refl, ground arith)
    | inr after ↦ elim (emplace_envelope-cases next_rx e ring) [
      | inl (same, has) ↦ inl (ground arith, inr has)
      | inr (front, back, split, new) ↦ inr (x ∷ front, back, ap (◌∷◌ x) split, ground arith)
    ]
  ]
]
