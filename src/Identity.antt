-- ===== src/Identity.antt =====
-- RNS/Identity.py: the keys of an identity, what it remembers of others, announces and encryption;
-- with the announces of RNS/Destination.py. The curves are parameters. A key object is its bytes.
pub mod Keys
pub mod Known
pub mod Announce
pub mod Outcome
pub mod Accepted
pub mod Destination
pub mod Announcing
pub mod Parts
pub mod Genuine
pub mod Rotation
pub mod AnnounceTrip
pub mod Cipher
pub mod Opening
pub mod CipherTrip
mod Tests
mod CipherTests
use reticulum.Prelude.{ℕ, Bytes, Bool, Option}

-- KEYSIZE//8, its half, NAME_HASH_LENGTH//8, SIGLENGTH//8 and RATCHETSIZE//8
abbrev pub keysize : ℕ
keysize = 64

abbrev pub half_key : ℕ
half_key = 32

abbrev pub name_hash_len : ℕ
name_hash_len = 10

abbrev pub sig_len : ℕ
sig_len = 64

abbrev pub ratchetsize : ℕ
ratchetsize = 32

-- X25519 and Ed25519: the public key of a private key, key exchange, signature and verification.
-- `accepts_x` and `accepts_ed` say which bytes `from_public_bytes` takes, and `accepts_prv` and
-- `accepts_ed_prv` which `from_private_bytes` does; `exchange` is `none` where it raises.
pub record Curves : Type 0 where
  pub accepts_x : Bytes → Bool
  pub accepts_ed : Bytes → Bool
  pub accepts_prv : Bytes → Bool
  pub accepts_ed_prv : Bytes → Bool
  pub x_public : Bytes → Bytes
  pub ed_public : Bytes → Bytes
  pub exchange : Bytes → Bytes → Option Bytes
  pub ed_sign : Bytes → Bytes → Bytes
  pub ed_verify : Bytes → Bytes → Bytes → Bool

-- An object of the class. `hash` is missing until `update_hashes` has run.
pub record Identity : Type 0 where
  pub prv : Option Bytes
  pub sig_prv : Option Bytes
  pub pub_bytes : Bytes
  pub sig_pub_bytes : Bytes
  pub x_pub : Option Bytes
  pub sig_pub : Option Bytes
  pub hash : Option Bytes
