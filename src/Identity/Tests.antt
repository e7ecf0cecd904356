-- ===== src/Identity/Tests.antt =====
-- Announces and encryption at concrete values, with simple functions for the curves and the cipher.
use reticulum.Prelude.{
  ◌≡◌, ◌⊎◌, inr, refl, Bytes, bytes_eq, take, drop, replicate, List, [], ◌∷◌, ◌++◌, true, false,
  none, some, arith,
}
use reticulum.Prelude.Results.{ok}
use reticulum.Packet.{announce, dst_len}
use reticulum.Packet.Hash.{full_hash, truncated_hash}
use reticulum.Crypto.Hkdf.{hkdf, blocks}
use reticulum.Crypto.Pkcs7.{unpad}
use reticulum.Crypto.Token.{Crypto, init, decrypt, verify_hmac, open_token}
use reticulum.Transport.Paths.{find}
use reticulum.Transport.Filter.{contains}
use reticulum.Identity.{Curves, Identity, half_key}
use reticulum.Identity.Keys.{load_public_key, validate}
use reticulum.Identity.Known.{KnownDestination, Known, remember, ratchet_id}
use reticulum.Identity.Announce.{
  AnnouncePacket, announce_fields, signed_data, has_other_key, expected_hash, is_signed_by,
  is_signed, accept_announce, validate_fields, validate_announce,
}
use reticulum.Identity.Accepted.{validate_announce-authentic, validate_announce-same_key}
use reticulum.Identity.Destination.{Node, Moment, not_set}
use reticulum.Identity.Announcing.{announce_destination}
use reticulum.Identity.AnnounceTrip.{Trusted, validate_announce-announce}
use reticulum.Identity.Cipher.{
  Receiver, decrypt_for, try_ratchet, try_ratchets, decrypt_shared, decrypt_opened, token_for,
}
use reticulum.Identity.Opening.{decrypt_for-enforced}

abbrev secret_bytes : Bytes
secret_bytes = replicate 32 6

-- One private key is taken, all others are refused.
abbrev curves : Curves
curves = record {
  accepts_x = λ b. true;
  accepts_ed = λ b. true;
  accepts_prv = λ b. bytes_eq b secret_bytes;
  accepts_ed_prv = λ b. true;
  x_public = λ b. replicate 32 4;
  ed_public = λ b. b;
  exchange = λ a b. some (replicate 32 1);
  ed_sign = λ key message. replicate 64 1;
  ed_verify = λ key signature message. bytes_eq signature (replicate 64 1);
}

abbrev sha : Bytes → Bytes
sha bs = bs

abbrev crypto : Crypto
crypto = record {
  encrypt = λ mode payload key iv. payload;
  decrypt = λ mode ciphertext key iv. ok ciphertext;
  hmac = λ key bs. replicate 32 7;
}

abbrev identity : Identity
identity = record {
  prv = some secret_bytes;
  sig_prv = some (replicate 32 5);
  pub_bytes = replicate 32 2;
  sig_pub_bytes = replicate 32 3;
  x_pub = some (replicate 32 2);
  sig_pub = some (replicate 32 3);
  hash = some (replicate 16 2);
}

abbrev name_hash : Bytes
name_hash = replicate 10 8

abbrev own_hash : Bytes
own_hash = name_hash ++ replicate 6 2

-- As enable_ratchets leaves it: ratchets are on, and there is none yet.
abbrev node : Node
node = record {
  destination = record {
    kind = 0;
    direction = 0x11;
    hash = own_hash;
    name_hash = name_hash;
    identity = identity;
    default_app_data = not_set;
    ratchets = some [];
    retained_ratchets = 512;
    ratchet_interval = 1800;
    latest_ratchet_time = 0;
    path_responses = [];
  };
  known = record { known_destinations = []; known_ratchets = [] };
}

abbrev moment : Moment
moment = record {
  now = 2000;
  random_hash = replicate 16 9;
  new_ratchet = secret_bytes;
  can_write = true;
}

abbrev nothing : Known
nothing = record { known_destinations = []; known_ratchets = [] }

trusted : Trusted curves sha [] node.destination (replicate 32 5)
unfolding contains truncated_hash full_hash
trusted = (refl, refl, refl, λ message. refl, refl)

unknown : has_other_key own_hash (replicate 32 2 ++ replicate 32 3) nothing ≡ false
unfolding has_other_key find
unknown = refl

validate_announce-announce_example :
    (p : AnnouncePacket) × (n' : Node) × (announce_destination curves moment [] false none
        (some (1 ∷ []))
        node
      ≡ (ok p, n'))
    × ((validate_announce curves sha [] 10 false p nothing).0 ≡ true)
    × (p.destination_hash ≡ own_hash)
    × ((announce_fields p).public_key ≡ replicate 32 2 ++ replicate 32 3)
    × ((node.destination.ratchets ≡ none)
        ⊎ (find own_hash (validate_announce curves sha [] 10 false p nothing).1.known_ratchets
            ≡ some (announce_fields p).ratchet))
validate_announce-announce_example =
    validate_announce-announce curves moment sha [] 10 nothing [] false none (some (1 ∷ []))
      (replicate 32 5) node (refl, refl, refl, refl, refl) trusted
      (inr ([], refl, refl, inr (omega arith))) (λ secret. refl) (λ message. refl) (omega arith)
      (omega arith) refl unknown

-- An announce without a ratchet, received.
abbrev received : AnnouncePacket
received = record {
  packet_type = 1;
  destination_hash = own_hash;
  payload = replicate 32 2 ++ (replicate 32 3 ++ (name_hash ++ (replicate 10 9 ++ replicate 64 1)));
  context_flag = 0;
  packet_hash = [];
}

received_valid : (validate_announce curves sha [] 10 false received nothing).0 ≡ true
unfolding validate_announce validate_fields is_signed is_signed_by announce_fields load_public_key
    validate expected_hash has_other_key accept_announce remember truncated_hash full_hash find
    contains
received_valid = refl

validate_announce-authentic_example :
    (hash : Bytes) × (entry : KnownDestination) × (received.packet_type ≡ announce)
    × (curves.ed_verify
          (drop half_key (announce_fields received).public_key)
          (announce_fields received).signature
          (signed_data own_hash (announce_fields received))
        ≡ true)
    × (hash ≡ truncated_hash sha (announce_fields received).public_key)
    × (own_hash ≡ take dst_len (full_hash sha ((announce_fields received).name_hash ++ hash)))
    × (contains hash [] ≡ false)
    × (has_other_key own_hash (announce_fields received).public_key nothing ≡ false)
    × (find own_hash
          (validate_announce curves sha [] 10 false received nothing).1.known_destinations
        ≡ some entry)
    × (entry.public_key ≡ (announce_fields received).public_key)
validate_announce-authentic_example =
    validate_announce-authentic curves sha [] 10 received nothing received_valid

-- The destination is known already, by a key that another announce contradicts.
abbrev old_entry : KnownDestination
old_entry = record { timestamp = 1; packet_hash = []; public_key = replicate 64 6; app_data = none }

abbrev other_key : Known
other_key = record { known_destinations = (own_hash, old_entry) ∷ []; known_ratchets = [] }

known_already : find own_hash other_key.known_destinations ≡ some old_entry
unfolding find
known_already = refl

validate_announce-same_key_example :
    (new : KnownDestination) × (find own_hash
        (validate_announce curves sha [] 10 false received other_key).1.known_destinations
      ≡ some new)
    × (new.public_key ≡ replicate 64 6)
validate_announce-same_key_example =
    validate_announce-same_key curves sha [] 10 false received other_key own_hash old_entry
      known_already

abbrev iv : Bytes
iv = replicate 16 0

abbrev receiver : Receiver
receiver = record { latest_ratchet_id = none }

abbrev refused_ratchet : Bytes
refused_ratchet = replicate 32 9

abbrev public_ratchet : Bytes
public_ratchet = curves.x_public secret_bytes

-- The token of one byte, for the shared key of the curves.
abbrev sealed : Bytes
sealed = replicate 32 4 ++ (iv ++ ((1 ∷ replicate 15 15) ++ replicate 32 7))

abbrev opened : Receiver
opened = record { latest_ratchet_id = some (ratchet_id sha public_ratchet) }

sealed_opens :
    decrypt_for curves crypto sha identity sealed
      (some (refused_ratchet ∷ secret_bytes ∷ []))
      true
      receiver
    ≡ ok (some (1 ∷ []), opened)
unfolding decrypt_for decrypt_opened try_ratchets try_ratchet decrypt_shared token_for hkdf blocks
    init decrypt verify_hmac open_token unpad
sealed_opens = refl

decrypt_for-enforced_example :
    (before : List Bytes) × (ratchet : Bytes) × (after : List Bytes) × (refused_ratchet
        ∷ secret_bytes ∷ []
      ≡ before ++ (ratchet ∷ after))
    × (try_ratchets curves crypto sha identity (take half_key sealed) (drop half_key sealed) before
        ≡ none)
    × (try_ratchet curves crypto sha identity (take half_key sealed) (drop half_key sealed) ratchet
        ≡ some (1 ∷ []))
    × (opened.latest_ratchet_id ≡ some (ratchet_id sha (curves.x_public ratchet)))
decrypt_for-enforced_example =
    decrypt_for-enforced curves crypto sha identity sealed (refused_ratchet ∷ secret_bytes ∷ [])
      receiver opened (1 ∷ []) sealed_opens
