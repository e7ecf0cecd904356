-- ===== src/Identity/Genuine.antt =====
-- An announce with everything that Identity.validate_announce asks for is taken in.
use reticulum.Prelude.{
  ℕ, ◌≡◌, ◌⊎◌, inl, inr, refl, ap, ◌∙◌, Bytes, bytes_eq, bytes_eq_refl, bytes_eq_sound, length,
  take, drop, take-append-drop, List, [], ◌∷◌, ◌++◌, Bool-cases, Option-cases, true, false, some,
  ◌==◌, ==_iff,
}
use reticulum.Packet.{announce, dst_len}
use reticulum.Packet.Hash.{full_hash, truncated_hash}
use reticulum.Transport.Paths.{find}
use reticulum.Transport.Filter.{contains}
use reticulum.Identity.{Curves, keysize, half_key, ratchetsize}
use reticulum.Identity.Keys.{empty_identity, load_public_key, validate}
use reticulum.Identity.Known.{Known, remember, remember_ratchet}
use reticulum.Identity.Announce.{
  AnnouncePacket, AnnounceFields, announce_fields, signed_data, is_empty_ratchet, has_other_key,
  announced, expected_hash, is_hash, is_signed, is_signed_by, accept_announce, validate_fields,
  validate_announce,
}
use reticulum.Identity.Accepted.{loaded}
use reticulum.Identity.Parts.{joined, Sized, parts_with_ratchet, parts_without_ratchet}

-- The flag of a packet says whether a ratchet is in it.
abbrev pub Flagged : AnnouncePacket → AnnounceFields → Type 0
Flagged p f =
    ((p.context_flag ≡ 1) × (length f.ratchet ≡ ratchetsize))
    ⊎ ((p.context_flag ≡ 0) × (f.ratchet ≡ []))

announce_fields-joined :
    (p : AnnouncePacket) (f : AnnounceFields)
    → p.payload ≡ joined f
    → Sized f
    → Flagged p f
    → announce_fields p ≡ f
unfolding announce_fields
announce_fields-joined p f made sized flag = elim flag [
  | inl (set, long) ↦ rw (announce_fields, set, made) (parts_with_ratchet f sized long)
  | inr (unset, empty) ↦ rw (announce_fields, unset, made) (parts_without_ratchet f sized empty)
]

find-latest : (d v : Bytes) (k : List (Bytes × Bytes)) → find d ((d, v) ∷ k) ≡ some v
unfolding find
find-latest d v k = rw (bytes_eq_refl d) refl

find-remember_ratchet :
    (d ratchet : Bytes) (k : Known)
    → find d (remember_ratchet d ratchet k).known_ratchets ≡ some ratchet
unfolding remember_ratchet
find-remember_ratchet d ratchet k = elim (Option-cases (find d k.known_ratchets)) [
  | inl new ↦ rw (remember_ratchet, new) (find-latest d ratchet k.known_ratchets)
  | inr (old, known) ↦ elim (Bool-cases (bytes_eq old ratchet)) [
    | inl same ↦ rw (remember_ratchet, known, same) (known ∙ ap some (bytes_eq_sound _ _ same))
    | inr other ↦ rw (remember_ratchet, known, other) (find-latest d ratchet k.known_ratchets)
  ]
]

module _ (x : Curves) (sha256 : Bytes → Bytes) (blackholed : List Bytes) (now : ℕ) where
  -- The keys are keys, the identity is not blackholed, the signature verifies, the destination hash
  -- is the one of the name and the key, and no other key is known for it.
  abbrev pub Genuine : AnnouncePacket → AnnounceFields → Known → Type 0
  Genuine p f k =
      (p.packet_type ≡ announce)
      × (x.accepts_x (take half_key f.public_key) ≡ true)
      × (x.accepts_ed (drop half_key f.public_key) ≡ true)
      × (contains (truncated_hash sha256 f.public_key) blackholed ≡ false)
      × (x.ed_verify (drop half_key f.public_key) f.signature (signed_data p.destination_hash f)
          ≡ true)
      × (p.destination_hash
          ≡ take dst_len (full_hash sha256 (f.name_hash ++ truncated_hash sha256 f.public_key)))
      × (has_other_key p.destination_hash f.public_key k ≡ false)

  loads :
      (bytes : Bytes)
      → x.accepts_x (take half_key bytes) ≡ true
      → x.accepts_ed (drop half_key bytes) ≡ true
      → load_public_key x sha256 bytes empty_identity ≡ loaded x sha256 blackholed now bytes
  unfolding load_public_key
  loads bytes a b = rw (load_public_key, a, b) refl

  signs :
      (p : AnnouncePacket) (f : AnnounceFields) (k : Known)
      → Genuine p f k
      → is_signed x sha256 blackholed now p f ≡ true
  unfolding is_signed is_signed_by validate
  signs p f k (kind, a, b, listed, verified, named, key) =
      let whole = take-append-drop half_key f.public_key in
      ap (λ i. is_signed_by x sha256 blackholed now i p f) (loads f.public_key a b)
      ∙ rw (whole, listed) verified

  names :
      (p : AnnouncePacket) (f : AnnounceFields) (k : Known)
      → Genuine p f k
      → is_hash x sha256 blackholed now p.destination_hash
          (expected_hash x sha256 blackholed now f (announced x sha256 blackholed now f).hash)
        ≡ true
  unfolding expected_hash
  names p f k (kind, a, b, listed, verified, named, key) =
      let whole = take-append-drop half_key f.public_key in
      ap
        (λ i.
          is_hash x sha256 blackholed now p.destination_hash
            (expected_hash x sha256 blackholed now f i.hash))
        (loads f.public_key a b)
      ∙ rw (whole, named)
          (bytes_eq_refl
            (take dst_len (full_hash sha256 (f.name_hash ++ truncated_hash sha256 f.public_key))))

  accepts :
      (p : AnnouncePacket) (f : AnnounceFields) (k : Known)
      → Genuine p f k
      → length f.public_key ≡ keysize
      → ((validate_fields x sha256 blackholed now false p f k).0 ≡ true)
        × (is_empty_ratchet f.ratchet ≡ false
            → find p.destination_hash
                (validate_fields x sha256 blackholed now false p f k).1.known_ratchets
              ≡ some f.ratchet)
  unfolding validate_fields accept_announce remember
  accepts p f k genuine size =
      let key = genuine.6 in
      let sized : (length f.public_key == keysize) ≡ true = (==_iff _ _).1 size in
      (
        rw (validate_fields, signs p f k genuine, names p f k genuine, key, accept_announce, sized)
            refl,
        λ carried.
            rw
              (
                validate_fields,
                signs p f k genuine,
                names p f k genuine,
                key,
                accept_announce,
                sized,
                carried,
              )
              (find-remember_ratchet p.destination_hash f.ratchet _),
      )

  -- A genuine announce is taken in, and its ratchet with it.
  pub validate_announce-Genuine :
      (p : AnnouncePacket) (f : AnnounceFields) (k : Known)
      → p.payload ≡ joined f
      → Sized f
      → Flagged p f
      → Genuine p f k
      → ((validate_announce x sha256 blackholed now false p k).0 ≡ true)
        × (is_empty_ratchet f.ratchet ≡ false
            → find p.destination_hash
                (validate_announce x sha256 blackholed now false p k).1.known_ratchets
              ≡ some f.ratchet)
        × (announce_fields p ≡ f)
  unfolding validate_announce
  validate_announce-Genuine p f k made sized flag genuine =
      let kind = (==_iff p.packet_type announce).1 genuine.0 in
      let parts = announce_fields-joined p f made sized flag in
      let whole : validate_announce x sha256 blackholed now false p k
          ≡ validate_fields x sha256 blackholed now false p f k =
        rw (validate_announce, kind)
          (ap (λ g. validate_fields x sha256 blackholed now false p g k) parts) in
      let (taken, kept) = accepts p f k genuine sized.0 in
      (
        ap (λ r. r.0) whole ∙ taken,
        λ carried. ap (λ r. find p.destination_hash r.1.known_ratchets) whole ∙ kept carried,
        parts,
      )
