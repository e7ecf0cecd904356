-- ===== src/Identity/Known.antt =====
-- What Identity keeps of others: the announced destinations and their ratchets.
use reticulum.Prelude.{
  ℕ, Bytes, bytes_eq, length, take, List, ◌∷◌, Option, none, some, ◌==◌, if◌then◌else◌,
}
use reticulum.Prelude.Results.{Result, ok, err}
use reticulum.Packet.Hash.{full_hash}
use reticulum.Transport.Paths.{find}
use reticulum.Identity.{keysize, name_hash_len}

pub record KnownDestination : Type 0 where
  pub timestamp : ℕ
  pub packet_hash : Bytes
  pub public_key : Bytes
  pub app_data : Option Bytes

-- Dictionaries by destination hash, as the lists of their writes, latest first.
pub record Known : Type 0 where
  pub known_destinations : List (Bytes × KnownDestination)
  pub known_ratchets : List (Bytes × Bytes)

pub data RememberError : Type 0 where
  bad_key_size : RememberError

unfoldable pub remember :
    ℕ → Bytes → Bytes → Bytes → Option Bytes → Known → Result RememberError Known
remember now packet_hash d public_key app_data k =
    if length public_key == keysize
    then (let entry : KnownDestination = record {
      timestamp = now;
      packet_hash = packet_hash;
      public_key = public_key;
      app_data = app_data;
    } in
        ok (record k { known_destinations = (d, entry) ∷ k.known_destinations }))
    else err bad_key_size

-- A ratchet that is there already is not written again. The file that keeps it is not modelled.
unfoldable pub remember_ratchet : Bytes → Bytes → Known → Known
remember_ratchet d ratchet k = elim (find d k.known_ratchets) [
  | none ↦ record k { known_ratchets = (d, ratchet) ∷ k.known_ratchets }
  | some old ↦
      if bytes_eq old ratchet
      then k
      else record k { known_ratchets = (d, ratchet) ∷ k.known_ratchets }
]

-- _get_ratchet_id
pub ratchet_id : (Bytes → Bytes) → Bytes → Bytes
ratchet_id sha256 ratchet_pub = take name_hash_len (full_hash sha256 ratchet_pub)
