-- ===== src/Identity/Announce.antt =====
-- Identity.validate_announce.
use reticulum.Prelude.{
  ℕ, ◌+◌, Bytes, bytes_eq, length, take, drop, List, [], ◌∷◌, ◌++◌, Bool, true, false, not, ◌&&◌,
  Option, none, some, ltb, ◌==◌, if◌then◌else◌,
}
use reticulum.Prelude.Results.{ok, err}
use reticulum.Packet.{announce, dst_len}
use reticulum.Packet.Hash.{full_hash}
use reticulum.Transport.Paths.{find}
use reticulum.Transport.Filter.{contains}
use reticulum.Identity.{Curves, Identity, keysize, name_hash_len, sig_len, ratchetsize}
use reticulum.Identity.Keys.{empty_identity, load_public_key, validate}
use reticulum.Identity.Known.{Known, remember, remember_ratchet}

-- What `validate_announce` reads of a packet: `payload` is the attribute `data`, `packet_hash` what
-- `get_hash` gives.
pub record AnnouncePacket : Type 0 where
  pub packet_type : ℕ
  pub destination_hash : Bytes
  pub payload : Bytes
  pub context_flag : ℕ
  pub packet_hash : Bytes

pub record AnnounceFields : Type 0 where
  pub public_key : Bytes
  pub name_hash : Bytes
  pub random_hash : Bytes
  pub ratchet : Bytes
  pub signature : Bytes
  pub app_data : Bytes

-- `bytes[start:start+size]`
abbrev pub slice : ℕ → ℕ → Bytes → Bytes
slice start size bytes = take size (drop start bytes)

abbrev pub app_data_behind : ℕ → Bytes → Bytes
app_data_behind start payload = if ltb start (length payload) then drop start payload else []

abbrev pub with_ratchet : Bytes → AnnounceFields
with_ratchet payload = record {
  public_key = take keysize payload;
  name_hash = slice keysize name_hash_len payload;
  random_hash = slice (keysize + name_hash_len) 10 payload;
  ratchet = slice (keysize + name_hash_len + 10) ratchetsize payload;
  signature = slice (keysize + name_hash_len + 10 + ratchetsize) sig_len payload;
  app_data = app_data_behind (keysize + name_hash_len + 10 + sig_len + ratchetsize) payload;
}

abbrev pub without_ratchet : Bytes → AnnounceFields
without_ratchet payload = record {
  public_key = take keysize payload;
  name_hash = slice keysize name_hash_len payload;
  random_hash = slice (keysize + name_hash_len) 10 payload;
  ratchet = [];
  signature = slice (keysize + name_hash_len + 10) sig_len payload;
  app_data = app_data_behind (keysize + name_hash_len + 10 + sig_len) payload;
}

-- FLAG_SET is 1.
unfoldable pub announce_fields : AnnouncePacket → AnnounceFields
announce_fields p =
    if p.context_flag == 1 then with_ratchet p.payload else without_ratchet p.payload

abbrev pub signed_data : Bytes → AnnounceFields → Bytes
signed_data d f =
    d ++ (f.public_key ++ (f.name_hash ++ (f.random_hash ++ (f.ratchet ++ f.app_data))))

-- What is remembered as application data.
abbrev pub kept_app_data : Bytes → AnnounceFields → Option Bytes
kept_app_data payload f =
    if ltb (keysize + name_hash_len + 10 + sig_len) (length payload) then some f.app_data else none

abbrev pub is_blackholed : List Bytes → Option Bytes → Bool
is_blackholed blackholed none = false
is_blackholed blackholed (some hash) = contains hash blackholed

abbrev pub is_empty_ratchet : Bytes → Bool
is_empty_ratchet [] = true
is_empty_ratchet (b ∷ bs) = false

-- Is there another key for the destination?
unfoldable pub has_other_key : Bytes → Bytes → Known → Bool
has_other_key d public_key k = elim (find d k.known_destinations) [
  | none ↦ false
  | some e ↦ not (bytes_eq public_key e.public_key)
]

module _ (x : Curves) (sha256 : Bytes → Bytes) (blackholed : List Bytes) (now : ℕ) where
  abbrev pub announced : AnnounceFields → Identity
  announced f = load_public_key x sha256 f.public_key empty_identity

  -- `full_hash(name_hash+announced_identity.hash)[:TRUNCATED_HASHLENGTH//8]`
  unfoldable pub expected_hash : AnnounceFields → Option Bytes → Option Bytes
  expected_hash f none = none
  expected_hash f (some hash) = some (take dst_len (full_hash sha256 (f.name_hash ++ hash)))

  abbrev pub is_hash : Bytes → Option Bytes → Bool
  is_hash d none = false
  is_hash d (some hash) = bytes_eq d hash

  -- The identity is not blackholed and the signature valid; an exception is caught.
  unfoldable pub is_signed_by : Identity → AnnouncePacket → AnnounceFields → Bool
  is_signed_by i p f =
      not (is_blackholed blackholed i.hash)
      && (elim (validate x i f.signature (signed_data p.destination_hash f)) [
        | ok valid ↦ valid
        | err e ↦ false
      ])

  unfoldable pub is_signed : AnnouncePacket → AnnounceFields → Bool
  unfolding is_signed_by
  is_signed p f = is_signed_by (announced f) p f

  unfoldable pub accept_announce : AnnouncePacket → AnnounceFields → Known → Bool × Known
  accept_announce p f k =
      elim (remember now p.packet_hash p.destination_hash f.public_key (kept_app_data p.payload f)
        k) [
          | err e ↦ (false, k)
          | ok k' ↦ (
            true,
            if is_empty_ratchet f.ratchet
                then k'
                else remember_ratchet p.destination_hash f.ratchet k',
          )
        ]

  -- The body behind the packet type; None, for a packet that is no announce, is false.
  unfoldable pub validate_fields : Bool → AnnouncePacket → AnnounceFields → Known → Bool × Known
  validate_fields only_validate_signature p f k =
      if is_signed p f
      then (if only_validate_signature
          then (true, k)
          else if is_hash p.destination_hash (expected_hash f (announced f).hash)
          then (if has_other_key p.destination_hash f.public_key k
              then (false, k)
              else accept_announce p f k)
          else (false, k))
      else (false, k)

  unfoldable pub validate_announce : Bool → AnnouncePacket → Known → Bool × Known
  validate_announce only_validate_signature p k =
      if p.packet_type == announce
      then validate_fields only_validate_signature p (announce_fields p) k
      else (false, k)
