-- ===== src/Identity/Cipher.antt =====
-- Identity.encrypt and Identity.decrypt, with the ratchets of a destination, over Crypto.Hkdf and
-- Crypto.Token.
use reticulum.Prelude.{
  ℕ, Bytes, length, take, drop, List, [], ◌∷◌, ◌++◌, Bool, Option, none, some, ltb, if◌then◌else◌,
}
use reticulum.Prelude.Results.{Result, ok, err}
use reticulum.Crypto.Hkdf.{hkdf}
use reticulum.Crypto.Token.{Token, Crypto, init, encrypt, decrypt}
use reticulum.Identity.{Curves, Identity, half_key}
use reticulum.Identity.Known.{ratchet_id}

abbrev pub derived_key_length : ℕ
derived_key_length = 64

pub data CipherError : Type 0 where
  no_key bad_public_key bad_exchange bad_derivation bad_token : CipherError

-- `ratchet_id_receiver.latest_ratchet_id`
pub record Receiver : Type 0 where
  pub latest_ratchet_id : Option Bytes

-- The list of ratchets that is given, None being as good as an empty one.
abbrev pub given_ratchets : Option (List Bytes) → List Bytes
given_ratchets none = []
given_ratchets (some ratchets) = ratchets

module _ (x : Curves) (c : Crypto) (sha256 : Bytes → Bytes) where
  -- The token of a shared key: the salt is the hash of the identity, and there is no context.
  unfoldable pub token_for : Option Bytes → Bytes → Result CipherError Token
  token_for salt shared_key = elim (hkdf c.hmac derived_key_length (some shared_key) salt none) [
    | err e ↦ err bad_derivation
    | ok key ↦ elim (init key) [ err e ↦ err bad_token | ok t ↦ ok t ]
  ]

  -- `ephemeral` is the generated key, `iv` the token's.
  unfoldable pub encrypt_with : Identity → Bytes → Bytes → Bytes → Bytes → Result CipherError Bytes
  unfolding token_for
  encrypt_with i ephemeral iv target plaintext = elim (x.exchange ephemeral target) [
    | none ↦ err bad_exchange
    | some shared_key ↦ elim (token_for i.hash shared_key) [
      | err e ↦ err e
      | ok t ↦ elim (encrypt c t iv plaintext) [
        | err e ↦ err bad_token
        | ok ciphertext ↦ ok (x.x_public ephemeral ++ ciphertext)
      ]
    ]
  ]

  unfoldable pub encrypt_for :
      Identity → Bytes → Bytes → Bytes → Option Bytes → Result CipherError Bytes
  unfolding encrypt_with
  encrypt_for i ephemeral iv plaintext ratchet = elim i.x_pub [
    | none ↦ err no_key
    | some own ↦ elim ratchet [
      | none ↦ encrypt_with i ephemeral iv own plaintext
      | some r ↦
          if x.accepts_x r then encrypt_with i ephemeral iv r plaintext else err bad_public_key
    ]
  ]

  -- The exchange with the peer's key and Identity.__decrypt; `none` is an exception of either.
  unfoldable pub decrypt_shared : Identity → Bytes → Bytes → Bytes → Option Bytes
  unfolding token_for
  decrypt_shared i own peer_pub ciphertext = elim (x.exchange own peer_pub) [
    | none ↦ none
    | some shared_key ↦ elim (token_for i.hash shared_key) [
      | err e ↦ none
      | ok t ↦ elim (decrypt c t ciphertext) [ err e ↦ none | ok plaintext ↦ some plaintext ]
    ]
  ]

  -- One turn of the loop; an exception is passed over.
  unfoldable pub try_ratchet : Identity → Bytes → Bytes → Bytes → Option Bytes
  unfolding decrypt_shared
  try_ratchet i peer_pub ciphertext ratchet =
      if x.accepts_prv ratchet then decrypt_shared i ratchet peer_pub ciphertext else none

  -- The first ratchet that opens the token, with its id.
  unfoldable pub try_ratchets : Identity → Bytes → Bytes → List Bytes → Option (Bytes × Bytes)
  unfolding try_ratchet
  try_ratchets i peer_pub ciphertext [] = none
  try_ratchets i peer_pub ciphertext (ratchet ∷ ratchets) =
      let rest = try_ratchets i peer_pub ciphertext ratchets in
      elim (try_ratchet i peer_pub ciphertext ratchet) [
        | none ↦ rest
        | some plaintext ↦ some (plaintext, ratchet_id sha256 (x.x_public ratchet))
      ]

  -- The plaintext or None, and the receiver of the ratchet id.
  unfoldable pub decrypt_opened :
      Identity → Bytes → Bytes → Bytes → List Bytes → Bool → Option Bytes × Receiver
  unfolding try_ratchets decrypt_shared
  decrypt_opened i own peer_pub ciphertext ratchets enforce_ratchets =
      elim (try_ratchets i peer_pub ciphertext ratchets) [
        | some found ↦ (some found.0, record { latest_ratchet_id = some found.1 })
        | none ↦
            if enforce_ratchets
            then (none, record { latest_ratchet_id = none })
            else (decrypt_shared i own peer_pub ciphertext, record { latest_ratchet_id = none })
      ]

  unfoldable pub decrypt_for :
      Identity
      → Bytes
      → Option (List Bytes)
      → Bool
      → Receiver
      → Result CipherError (Option Bytes × Receiver)
  unfolding decrypt_opened
  decrypt_for i ciphertext_token ratchets enforce_ratchets receiver = elim i.prv [
    | none ↦ err no_key
    | some own ↦
        if ltb half_key (length ciphertext_token)
        then (if x.accepts_x (take half_key ciphertext_token)
            then ok (
                decrypt_opened i own (take half_key ciphertext_token)
                  (drop half_key ciphertext_token) (given_ratchets ratchets) enforce_ratchets)
            else ok (none, record { latest_ratchet_id = none }))
        else ok (none, receiver)
  ]
