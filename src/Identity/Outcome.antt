-- ===== src/Identity/Outcome.antt =====
-- The two ways in which Identity.validate_announce can end: nothing changes, or all tests held and the
-- destination has its new entry.
use reticulum.Prelude.{
  ℕ, ◌≡◌, ◌⊎◌, inl, inr, refl, Bytes, bytes_eq, length, List, ◌∷◌, Bool, Bool-cases, Option-cases,
  true, false, not, ◌&&◌, ◌==◌, ==_iff,
}
use reticulum.Packet.{announce}
use reticulum.Transport.Paths.{find}
use reticulum.Identity.{Curves, keysize}
use reticulum.Identity.Known.{KnownDestination, Known, remember, remember_ratchet}
use reticulum.Identity.Announce.{
  AnnouncePacket, AnnounceFields, announce_fields, kept_app_data, is_empty_ratchet, has_other_key,
  announced, expected_hash, is_hash, is_signed, accept_announce, validate_fields, validate_announce,
}

remember_ratchet-destinations :
    (d ratchet : Bytes) (k : Known)
    → (remember_ratchet d ratchet k).known_destinations ≡ k.known_destinations
unfolding remember_ratchet
remember_ratchet-destinations d ratchet k = elim (Option-cases (find d k.known_ratchets)) [
  | inl new ↦ rw (remember_ratchet, new) refl
  | inr (old, known) ↦ elim (Bool-cases (bytes_eq old ratchet)) [
    | inl same ↦ rw (remember_ratchet, known, same) refl
    | inr other ↦ rw (remember_ratchet, known, other) refl
  ]
]

pub split_tests : (a b : Bool) → (not a && b) ≡ true → (a ≡ false) × (b ≡ true)
split_tests false b h = (refl, h)
split_tests true b h = absurd (cc h)

module _ (x : Curves) (sha256 : Bytes → Bytes) (blackholed : List Bytes) (now : ℕ) where
  abbrev pub entry_of : AnnouncePacket → AnnounceFields → KnownDestination
  entry_of p f = record {
    timestamp = now;
    packet_hash = p.packet_hash;
    public_key = f.public_key;
    app_data = kept_app_data p.payload f;
  }

  accept_lem :
      (p : AnnouncePacket) (f : AnnounceFields) (k : Known)
      → (accept_announce x sha256 blackholed now p f k ≡ (false, k))
        ⊎ (((accept_announce x sha256 blackholed now p f k).0 ≡ true)
            × ((accept_announce x sha256 blackholed now p f k).1.known_destinations
                ≡ (p.destination_hash, entry_of p f) ∷ k.known_destinations))
  unfolding accept_announce remember
  accept_lem p f k = elim (Bool-cases (length f.public_key == keysize)) [
    | inr bad ↦ inl (rw (accept_announce, bad) refl)
    | inl good ↦ elim (Bool-cases (is_empty_ratchet f.ratchet)) [
      | inl without ↦
          inr (rw (accept_announce, good) refl, rw (accept_announce, good, without) refl)
      | inr carried ↦ inr (
        rw (accept_announce, good) refl,
        rw (accept_announce, good, carried)
            (remember_ratchet-destinations p.destination_hash f.ratchet _),
      )
    ]
  ]

  -- Either nothing changes, or everything held and the destination has its entry.
  abbrev Outcome : Bool → AnnouncePacket → AnnounceFields → Known → Bool × Known → Type 0
  Outcome only p f k result =
      ((result.1 ≡ k) × (result.0 ≡ true → only ≡ true))
      ⊎ ((is_signed x sha256 blackholed now p f ≡ true)
          × (is_hash x sha256 blackholed now p.destination_hash
                (expected_hash x sha256 blackholed now f (announced x sha256 blackholed now f).hash)
              ≡ true)
          × (has_other_key p.destination_hash f.public_key k ≡ false)
          × (result.1.known_destinations
              ≡ (p.destination_hash, entry_of p f) ∷ k.known_destinations))

  fields_outcome :
      (only : Bool) (p : AnnouncePacket) (f : AnnounceFields) (k : Known)
      → Outcome only p f k (validate_fields x sha256 blackholed now only p f k)
  unfolding validate_fields
  fields_outcome only p f k =
      let right : Bool =
        is_hash x sha256 blackholed now p.destination_hash
          (expected_hash x sha256 blackholed now f (announced x sha256 blackholed now f).hash) in
      elim (Bool-cases (is_signed x sha256 blackholed now p f)) [
        | inr unsigned ↦ inl (rw (validate_fields, unsigned) (refl, λ h. absurd (cc h)))
        | inl signed ↦ elim (Bool-cases only) [
          | inl alone ↦ inl (rw (validate_fields, signed, alone) (refl, λ h. refl))
          | inr fully ↦ elim (Bool-cases right) [
            | inr wrong ↦
                inl (rw (validate_fields, signed, fully, wrong) (refl, λ h. absurd (cc h)))
            | inl correct ↦ elim (Bool-cases (has_other_key p.destination_hash f.public_key k)) [
              | inl other ↦
                  inl
                    (rw (validate_fields, signed, fully, correct, other) (refl, λ h. absurd (cc h)))
              | inr same ↦ elim (accept_lem p f k) [
                | inl refused ↦ inl (
                    rw (validate_fields, signed, fully, correct, same, refused)
                      (refl, λ h. absurd (cc h)))
                | inr (taken, entered) ↦ inr (
                  signed,
                  correct,
                  same,
                  rw (validate_fields, signed, fully, correct, same) entered,
                )
              ]
            ]
          ]
        ]
      ]

  pub announce_outcome :
      (only : Bool) (p : AnnouncePacket) (k : Known)
      → (((validate_announce x sha256 blackholed now only p k).1 ≡ k)
          × ((validate_announce x sha256 blackholed now only p k).0 ≡ true → only ≡ true))
        ⊎ ((p.packet_type ≡ announce)
            × (is_signed x sha256 blackholed now p (announce_fields p) ≡ true)
            × (is_hash x sha256 blackholed now p.destination_hash (
                  expected_hash x sha256 blackholed now
                    (announce_fields p)
                    (announced x sha256 blackholed now (announce_fields p)).hash)
                ≡ true)
            × (has_other_key p.destination_hash (announce_fields p).public_key k ≡ false)
            × ((validate_announce x sha256 blackholed now only p k).1.known_destinations
                ≡ (p.destination_hash, entry_of p (announce_fields p)) ∷ k.known_destinations))
  unfolding validate_announce
  announce_outcome only p k = elim (Bool-cases (p.packet_type == announce)) [
    | inr other ↦ inl (rw (validate_announce, other) (refl, λ h. absurd (cc h)))
    | inl kind ↦ elim (fields_outcome only p (announce_fields p) k) [
      | inl (same, alone) ↦ inl (rw (validate_announce, kind) (same, alone))
      | inr (signed, correct, key, entered) ↦
          inr ((==_iff _ _).0 kind, signed, correct, key, rw (validate_announce, kind) entered)
    ]
  ]
