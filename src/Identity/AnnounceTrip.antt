-- ===== src/Identity/AnnounceTrip.antt =====
-- Announces that Destination.announce makes, at Identity.validate_announce.
use reticulum.Prelude.{
  ℕ, ◌≤◌, ◌<◌, ◌≡◌, ◌⊎◌, inl, inr, refl, sym, ap, ◌∙◌, Bytes, length, take, drop, List, [], ◌∷◌,
  ◌++◌, Bool, true, false, Option, none, some, ◌==◌, ==_iff, arith, if◌then◌else◌,
}
use reticulum.Prelude.Results.{ok}
use reticulum.Packet.{dst_len}
use reticulum.Packet.Hash.{full_hash, truncated_hash}
use reticulum.Transport.Paths.{find}
use reticulum.Transport.Filter.{contains}
use reticulum.Identity.{Curves, Identity, keysize, half_key, name_hash_len, sig_len, ratchetsize}
use reticulum.Identity.Keys.{get_public_key, sign}
use reticulum.Identity.Known.{Known}
use reticulum.Identity.Announce.{
  AnnouncePacket, AnnounceFields, announce_fields, is_empty_ratchet, has_other_key,
  validate_announce,
}
use reticulum.Identity.Destination.{Destination, Node, Moment, single, inward}
use reticulum.Identity.Announcing.{
  own_app_data, bytes_or_empty, cached_response, drop_stale, text_to_sign, signed_announce,
  new_announce, announce_payload, announce_packet, announce_destination,
}
use reticulum.Identity.Parts.{joined, Sized}
use reticulum.Identity.Genuine.{Flagged, validate_announce-Genuine}
use reticulum.Identity.Rotation.{Usable, rotated_node, ratchet_lem, random_lem}

-- A destination that can announce: a single one for incoming packets, with its keys and its name.
abbrev pub Announcing : Destination → Bytes → Type 0
Announcing d key =
    (d.kind ≡ single)
    × (d.direction ≡ inward)
    × (d.identity.sig_prv ≡ some key)
    × (length (get_public_key d.identity) ≡ keysize)
    × (length d.name_hash ≡ name_hash_len)

-- Its signatures verify, and its hash is the one that its key and its name give.
abbrev pub Trusted : Curves → (Bytes → Bytes) → List Bytes → Destination → Bytes → Type 0
Trusted x sha256 blackholed d key =
    (x.accepts_x (take half_key (get_public_key d.identity)) ≡ true)
    × (x.accepts_ed (drop half_key (get_public_key d.identity)) ≡ true)
    × (contains (truncated_hash sha256 (get_public_key d.identity)) blackholed ≡ false)
    × ((message : Bytes)
        → x.ed_verify (drop half_key (get_public_key d.identity)) (x.ed_sign key message) message
          ≡ true)
    × (d.hash
        ≡ take dst_len
            (full_hash sha256 (d.name_hash ++ truncated_hash sha256 (get_public_key d.identity))))

full_ratchet : (ratchet : Bytes) → length ratchet ≡ ratchetsize → is_empty_ratchet ratchet ≡ false
full_ratchet [] h = absurd (omega (arith, h))
full_ratchet (b ∷ bs) h = refl

module _ (x : Curves) (m : Moment) where
  abbrev fields_of : Destination → Bytes → Bytes → Bytes → Option Bytes → AnnounceFields
  fields_of d key random ratchet app_data = record {
    public_key = get_public_key d.identity;
    name_hash = d.name_hash;
    random_hash = random;
    ratchet = ratchet;
    signature =
        x.ed_sign key
          (text_to_sign x m d random ratchet (bytes_or_empty (own_app_data d app_data)));
    app_data = bytes_or_empty (own_app_data d app_data);
  }

  abbrev with_response : Node → Option Bytes → Bytes → Node
  with_response n tag payload = record n {
    destination = record n.destination {
      path_responses = (tag, m.now, payload) ∷ n.destination.path_responses;
    };
  }

  sign-ok :
      (i : Identity) (key message : Bytes)
      → i.sig_prv ≡ some key
      → sign x i message ≡ ok (x.ed_sign key message)
  unfolding sign
  sign-ok i key message h = rw (sign, h) refl

  new_announce_lem :
      (tag app_data : Option Bytes) (random ratchet key : Bytes) (n : Node)
      → n.destination.identity.sig_prv ≡ some key
      → new_announce x m tag app_data random ratchet n ≡ (
        ok (joined (fields_of n.destination key random ratchet app_data)),
        with_response n tag (joined (fields_of n.destination key random ratchet app_data)),
      )
  unfolding new_announce signed_announce
  new_announce_lem tag app_data random ratchet key n h =
      let sent : Bytes = bytes_or_empty (own_app_data n.destination app_data) in
      ap (signed_announce x m tag sent random ratchet n)
        (sign-ok n.destination.identity key (text_to_sign x m n.destination random ratchet sent) h)

  abbrev live_node : Node → Node
  live_node n = record n {
    destination = record n.destination {
      path_responses = drop_stale m.now n.destination.path_responses;
    };
  }

  -- The destination as it is when it signs.
  abbrev signing : Node → Option (List Bytes) → ℕ → Destination
  signing n ratchets time = record (live_node n).destination {
    ratchets = ratchets;
    latest_ratchet_time = time;
  }

  announce_lem :
      (packet_hash : Bytes) (path_response : Bool) (tag app_data : Option Bytes) (key : Bytes)
      (n : Node)
      → Announcing n.destination key
      → Usable n.destination m
      → ((k : Bytes) → length (x.x_public k) ≡ ratchetsize)
      → m.now < 0x10000000000
      → 5 ≤ length m.random_hash
      → (if path_response then cached_response tag (live_node n).destination else none) ≡ none
      → (ratchets : Option (List Bytes)) × (time : ℕ) × (random ratchet : Bytes) × (n' : Node)
        × (length random ≡ 10)
        × (((n.destination.ratchets ≡ none) × (ratchet ≡ [])) ⊎ (length ratchet ≡ ratchetsize))
        × (announce_destination x m packet_hash path_response tag app_data n ≡ (
          ok (
              announce_packet x m packet_hash n.destination ratchet
                (joined (fields_of (signing n ratchets time) key random ratchet app_data))),
          n',
        ))
  unfolding announce_destination announce_payload
  announce_lem packet_hash path_response tag app_data key n (kind, inside, signs, size, name) usable
        long early enough fresh =
      let live : Node = live_node n in
      let (ratchet, ratchets, time, known, made, sized) = ratchet_lem x m live usable long in
      let (random, drawn, ten) = random_lem x m early enough in
      let rotated : Node = rotated_node x m live ratchets time known in
      let payload : Bytes = joined (fields_of rotated.destination key random ratchet app_data) in
      let signed : new_announce x m tag app_data random ratchet rotated
          ≡ (ok payload, with_response rotated tag payload) =
        new_announce_lem tag app_data random ratchet key rotated signs in
      let is_single : (n.destination.kind == single) ≡ true = (==_iff _ _).1 kind in
      let is_inward : (n.destination.direction == inward) ≡ true = (==_iff _ _).1 inside in
      (
        ratchets,
        time,
        random,
        ratchet,
        with_response rotated tag payload,
        ten,
        sized,
        rw
            (
              announce_destination, is_single, is_inward, announce_payload, fresh, drawn, made,
              signed,
            )
            refl,
      )

  flag_lem :
      (packet_hash payload : Bytes) (d : Destination) (f : AnnounceFields)
      → ((d.ratchets ≡ none) × (f.ratchet ≡ [])) ⊎ (length f.ratchet ≡ ratchetsize)
      → Flagged (announce_packet x m packet_hash d f.ratchet payload) f
  unfolding announce_packet
  flag_lem packet_hash payload d f (inl (off, empty)) = inr (rw empty refl, empty)
  flag_lem packet_hash payload d f (inr long) = inl (rw long refl, long)

  -- What a destination announces, a node that has no other key for it takes in, with the ratchet in
  -- it: for ratchets that are off, or on with a disk that takes them, where there is a ratchet or
  -- the time for one has come (also before the first ratchet); a clock of 40 bits, five random bytes
  -- or more, and no announce data kept for the tag; given that public ratchets have 32 bytes and signatures 64 and
  -- verify, that the hash of the destination is the one of its name and key, and that the identity
  -- is not blackholed.
  pub validate_announce-announce :
      (sha256 : Bytes → Bytes) (blackholed : List Bytes) (now : ℕ) (k : Known) (packet_hash : Bytes)
      (path_response : Bool) (tag app_data : Option Bytes) (key : Bytes) (n : Node)
      → Announcing n.destination key
      → Trusted x sha256 blackholed n.destination key
      → Usable n.destination m
      → ((secret : Bytes) → length (x.x_public secret) ≡ ratchetsize)
      → ((message : Bytes) → length (x.ed_sign key message) ≡ sig_len)
      → m.now < 0x10000000000
      → 5 ≤ length m.random_hash
      → (if path_response then cached_response tag (live_node n).destination else none) ≡ none
      → has_other_key n.destination.hash (get_public_key n.destination.identity) k ≡ false
      → (p : AnnouncePacket) × (n' : Node) × (announce_destination x m packet_hash path_response tag
            app_data n
          ≡ (ok p, n'))
        × ((validate_announce x sha256 blackholed now false p k).0 ≡ true)
        × (p.destination_hash ≡ n.destination.hash)
        × ((announce_fields p).public_key ≡ get_public_key n.destination.identity)
        × ((n.destination.ratchets ≡ none)
            ⊎ (find n.destination.hash
                  (validate_announce x sha256 blackholed now false p k).1.known_ratchets
                ≡ some (announce_fields p).ratchet))
  unfolding announce_packet
  validate_announce-announce sha256 blackholed now k packet_hash path_response tag app_data key n
        announcing (a, b, listed, verifies, named) usable long signature early enough fresh
        same_key =
      let (ratchets, time, random, ratchet, n', ten, sized, made) =
        announce_lem packet_hash path_response tag app_data key n announcing usable long early
          enough fresh in
      let f : AnnounceFields = fields_of (signing n ratchets time) key random ratchet app_data in
      let p : AnnouncePacket = announce_packet x m packet_hash n.destination ratchet (joined f) in
      let sizes : Sized f = (announcing.3, announcing.4, ten, signature _) in
      let (taken, kept, parts) =
        validate_announce-Genuine x sha256 blackholed now p f k refl sizes
          (flag_lem packet_hash (joined f) n.destination f sized)
          (refl, a, b, listed, verifies _, named, same_key) in
      (
        p,
        n',
        made,
        taken,
        refl,
        ap (λ g. g.public_key) parts,
        elim sized [
          | inl (off, empty) ↦ inl off
          | inr carried ↦
              inr (kept (full_ratchet ratchet carried) ∙ ap (λ g. some g.ratchet) (sym parts))
        ],
      )
