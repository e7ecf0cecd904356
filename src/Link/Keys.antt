-- ===== src/Link/Keys.antt =====
-- Link.handshake, encrypt and decrypt: the key that a link derives, and the token made of it.
use reticulum.Prelude.{ℕ, Bytes, Option, none, some, Bool, true, false, ◌==◌, if◌then◌else◌}
use reticulum.Prelude.Results.{ok, err}
use reticulum.Crypto.Token.{Crypto, Token}
use reticulum.Crypto.Token
use reticulum.Crypto.Hkdf.{hkdf}
use reticulum.Link.{Link, handshaking, is_pending, mode_aes128_cbc, mode_aes256_cbc}

-- X25519 and Ed25519 of the cryptography library, the cipher and the MAC: whether 32 bytes are a public
-- key, the exchange of a private key with a public one, which may raise, and the public key of a
-- private one.
pub record World : Type 0 where
  pub is_key : Bytes → Bool
  pub exchange : Bytes → Bytes → Option Bytes
  pub public_key : Bytes → Bytes
  pub cipher : Crypto

abbrev pub derived_key_length : ℕ → Option ℕ
derived_key_length mode =
    if mode == mode_aes128_cbc then some 32 else if mode == mode_aes256_cbc then some 64 else none

-- The exchange, and the derivation; none where it raises.
unfoldable pub derive_key : World → Bytes → Bytes → ℕ → Bytes → Option Bytes
unfolding hkdf
derive_key w prv peer mode link_id = elim (w.exchange prv peer) [
  | none ↦ none
  | some shared ↦ elim (derived_key_length mode) [
    | none ↦ none
    | some size ↦ elim (hkdf w.cipher.hmac size (some shared) (some link_id) none) [
      | err e ↦ none
      | ok key ↦ some key
    ]
  ]
]

abbrev pub derived : World → Link → Bytes → Option Bytes
derived w l prv = elim l.peer_pub_bytes [
  | none ↦ none
  | some peer ↦ derive_key w prv peer l.mode l.link_id
]

-- Whether it returns, and the link after it: in HANDSHAKE also where it raises.
unfoldable pub handshake : World → Link → Bool × Link
handshake w l = elim l.private_key [
  | none ↦ (true, l)
  | some prv ↦
      if is_pending l.status
      then elim (derived w l prv) [
        | none ↦ (false, record l { status = handshaking })
        | some key ↦ (true, record l { status = handshaking; derived_key = some key })
      ]
      else (true, l)
]

-- `if not self.token: self.token = Token(self.derived_key)`; none where it raises.
unfoldable pub token_of : Link → Option Token
token_of l = elim l.token [
  | some t ↦ some t
  | none ↦ elim l.derived_key [
    | none ↦ none
    | some key ↦ elim (reticulum.Crypto.Token.init key) [ err e ↦ none | ok t ↦ some t ]
  ]
]

unfoldable pub encrypt : World → Bytes → Bytes → Link → Option Bytes × Link
unfolding token_of
encrypt w iv plaintext l = elim (token_of l) [
  | none ↦ (none, l)
  | some t ↦ (
    elim (reticulum.Crypto.Token.encrypt w.cipher t iv plaintext) [
      | err e ↦ none
      | ok bs ↦ some bs
    ],
    record l { token = some t },
  )
]

unfoldable pub decrypt : World → Bytes → Link → Option Bytes × Link
unfolding token_of
decrypt w ciphertext l = elim (token_of l) [
  | none ↦ (none, l)
  | some t ↦ (
    elim (reticulum.Crypto.Token.decrypt w.cipher t ciphertext) [ err e ↦ none | ok bs ↦ some bs ],
    record l { token = some t },
  )
]
