-- ===== src/Identity/Accepted.antt =====
-- What an announce must have for Identity.validate_announce to take it in, and what taking it in
-- changes.
use reticulum.Prelude.{
  ℕ, ◌≡◌, ◌⊎◌, inl, inr, refl, sym, ap, ◌∙◌, Bytes, bytes_eq, bytes_eq_sound, take, drop,
  take-append-drop, List, ◌∷◌, ◌++◌, Bool, Bool-cases, Option-cases, true, false, not, ◌&&◌, none,
  some,
}
use reticulum.Packet.{announce, dst_len}
use reticulum.Packet.Hash.{full_hash, truncated_hash}
use reticulum.Transport.Paths.{find, find-own}
use reticulum.Transport.Filter.{contains}
use reticulum.Identity.{Curves, Identity, half_key}
use reticulum.Identity.Keys.{empty_identity, load_public_key, validate}
use reticulum.Identity.Known.{KnownDestination, Known}
use reticulum.Identity.Announce.{
  AnnouncePacket, AnnounceFields, announce_fields, signed_data, has_other_key, announced,
  expected_hash, is_signed, is_signed_by, validate_announce,
}
use reticulum.Identity.Outcome.{split_tests, entry_of, announce_outcome}

module _ (x : Curves) (sha256 : Bytes → Bytes) (blackholed : List Bytes) (now : ℕ) where
  find-entered :
      (d' : Bytes) (e : KnownDestination) (d : Bytes) (k : List (Bytes × KnownDestination))
      → ((bytes_eq d' d ≡ true) × (find d ((d', e) ∷ k) ≡ some e))
        ⊎ ((bytes_eq d' d ≡ false) × (find d ((d', e) ∷ k) ≡ find d k))
  unfolding find
  find-entered d' e d k = elim (Bool-cases (bytes_eq d' d)) [
    | inl same ↦ inl (same, rw same refl)
    | inr other ↦ inr (other, rw other refl)
  ]

  same_key :
      (d public_key : Bytes) (k : Known) (old : KnownDestination)
      → has_other_key d public_key k ≡ false
      → find d k.known_destinations ≡ some old
      → public_key ≡ old.public_key
  unfolding has_other_key
  same_key d public_key k old h found =
      let differs : not (bytes_eq public_key old.public_key) ≡ false =
        rw (has_other_key, found) at h in
      elim (Bool-cases (bytes_eq public_key old.public_key)) [
        | inl same ↦ bytes_eq_sound _ _ same
        | inr other ↦ let flipped : not false ≡ false = rw other at differs in absurd (cc flipped)
      ]

  -- No announce changes the key that is known for a destination, whatever it contains and whether
  -- it is taken in or not.
  pub validate_announce-same_key :
      (only : Bool) (p : AnnouncePacket) (k : Known) (d : Bytes) (old : KnownDestination)
      → find d k.known_destinations ≡ some old
      → (new : KnownDestination) × (find d
            (validate_announce x sha256 blackholed now only p k).1.known_destinations
          ≡ some new)
        × (new.public_key ≡ old.public_key)
  validate_announce-same_key only p k d old found =
      elim (announce_outcome x sha256 blackholed now only p k) [
        | inl (same, alone) ↦ (old, ap (λ s. find d s.known_destinations) same ∙ found, refl)
        | inr (kind, signed, correct, key, entered) ↦
            let entry : KnownDestination = entry_of x sha256 blackholed now p (announce_fields p) in
            elim (find-entered p.destination_hash entry d k.known_destinations) [
              | inl (same, gets) ↦
                  let here : p.destination_hash ≡ d = bytes_eq_sound _ _ same in
                  (
                    entry,
                    ap (find d) entered ∙ gets,
                    same_key p.destination_hash (announce_fields p).public_key k old key
                        (ap (λ h. find h k.known_destinations) here ∙ found),
                  )
              | inr (other, gets) ↦ (old, ap (find d) entered ∙ gets ∙ found, refl)
            ]
      ]

  -- The identity of a public key that both curves take.
  abbrev pub loaded : Bytes → Identity
  loaded bytes = record empty_identity {
    pub_bytes = take half_key bytes;
    sig_pub_bytes = drop half_key bytes;
    x_pub = some (take half_key bytes);
    sig_pub = some (drop half_key bytes);
    hash = some (truncated_hash sha256 (take half_key bytes ++ drop half_key bytes));
  }

  loaded_lem :
      (bytes hash : Bytes)
      → (load_public_key x sha256 bytes empty_identity).hash ≡ some hash
      → (load_public_key x sha256 bytes empty_identity ≡ loaded bytes)
        × (hash ≡ truncated_hash sha256 bytes)
  unfolding load_public_key
  loaded_lem bytes hash h =
      let first : Bool = x.accepts_x (take half_key bytes) in
      let second : Bool = x.accepts_ed (drop half_key bytes) in
      elim (Bool-cases first) [
        | inr no_x ↦
            let missing : none ≡ some hash = sym (rw (load_public_key, no_x) refl) ∙ h in
            absurd (cc missing)
        | inl ok_x ↦ elim (Bool-cases second) [
          | inr no_ed ↦
              let missing : none ≡ some hash = sym (rw (load_public_key, ok_x, no_ed) refl) ∙ h in
              absurd (cc missing)
          | inl ok_ed ↦
              let whole : load_public_key x sha256 bytes empty_identity ≡ loaded bytes =
                rw (load_public_key, ok_x, ok_ed) refl in
              let mine : some (truncated_hash sha256 (take half_key bytes ++ drop half_key bytes))
                  ≡ some hash =
                sym (ap (λ i. i.hash) whole) ∙ h in
              (whole, cc (mine, take-append-drop half_key bytes))
        ]
      ]

  signed_lem :
      (p : AnnouncePacket) (f : AnnounceFields) (hash : Bytes)
      → is_signed x sha256 blackholed now p f ≡ true
      → (announced x sha256 blackholed now f).hash ≡ some hash
      → (contains hash blackholed ≡ false)
        × (hash ≡ truncated_hash sha256 f.public_key)
        × (x.ed_verify (drop half_key f.public_key) f.signature (signed_data p.destination_hash f)
            ≡ true)
  unfolding is_signed is_signed_by validate
  signed_lem p f hash signed hashed =
      let (whole, mine) = loaded_lem f.public_key hash hashed in
      let valid : Bool =
        x.ed_verify (drop half_key f.public_key) f.signature (signed_data p.destination_hash f) in
      let own : Bytes =
        truncated_hash sha256 (take half_key f.public_key ++ drop half_key f.public_key) in
      let same : own ≡ hash = cc (mine, take-append-drop half_key f.public_key) in
      let both : not (contains own blackholed) && valid ≡ true =
        ap (λ i. is_signed_by x sha256 blackholed now i p f) (sym whole) ∙ signed in
      let (listed, verified) = split_tests (contains own blackholed) valid both in
      (ap (λ h. contains h blackholed) (sym same) ∙ listed, mine, verified)

  -- An announce that is taken in is signed by the key in it, the destination hash is the hash of the
  -- announced name and that key, the identity is not blackholed, and no other key was known for the
  -- destination; after it the key is known for the destination.
  pub validate_announce-authentic :
      (p : AnnouncePacket) (k : Known)
      → (validate_announce x sha256 blackholed now false p k).0 ≡ true
      → (hash : Bytes) × (entry : KnownDestination) × (p.packet_type ≡ announce)
        × (x.ed_verify
              (drop half_key (announce_fields p).public_key)
              (announce_fields p).signature
              (signed_data p.destination_hash (announce_fields p))
            ≡ true)
        × (hash ≡ truncated_hash sha256 (announce_fields p).public_key)
        × (p.destination_hash
            ≡ take dst_len (full_hash sha256 ((announce_fields p).name_hash ++ hash)))
        × (contains hash blackholed ≡ false)
        × (has_other_key p.destination_hash (announce_fields p).public_key k ≡ false)
        × (find p.destination_hash
              (validate_announce x sha256 blackholed now false p k).1.known_destinations
            ≡ some entry)
        × (entry.public_key ≡ (announce_fields p).public_key)
  unfolding expected_hash
  validate_announce-authentic p k h =
      let f : AnnounceFields = announce_fields p in
      elim (announce_outcome x sha256 blackholed now false p k) [
        | inl (same, alone) ↦ absurd (cc (alone h))
        | inr (kind, signed, correct, key, entered) ↦
            elim (Option-cases (announced x sha256 blackholed now f).hash) [
              | inl unhashed ↦
                  let wrong : false ≡ true = rw (unhashed, expected_hash) at correct in
                  absurd (cc wrong)
              | inr (hash, hashed) ↦
                  let (listed, mine, verified) = signed_lem p f hash signed hashed in
                  let named : bytes_eq p.destination_hash
                        (take dst_len (full_hash sha256 (f.name_hash ++ hash)))
                      ≡ true =
                    rw (hashed, expected_hash) at correct in
                  (
                    hash,
                    entry_of x sha256 blackholed now p f,
                    kind,
                    verified,
                    mine,
                    bytes_eq_sound _ _ named,
                    listed,
                    key,
                    ap (find p.destination_hash) entered
                        ∙ find-own p.destination_hash (entry_of x sha256 blackholed now p f)
                            k.known_destinations,
                    refl,
                  )
            ]
      ]
