-- ===== src/Crypto/Tests.antt =====
-- Padding, tokens and derived keys at concrete values, with simple functions for the cipher and
-- the MAC.
use reticulum.Prelude.{Bytes, length, replicate, [], ◌∷◌, ◌++◌}
use reticulum.Prelude.Results.{ok}
use reticulum.Crypto.Token.{Token, Crypto, aes_256_cbc}

abbrev block : Bytes
block = 1 ∷ 2 ∷ 2 ∷ 2 ∷ []

abbrev crypto : Crypto
crypto = record {
  encrypt = λ mode payload key iv. payload;
  decrypt = λ mode ciphertext key iv. ok ciphertext;
  hmac = λ key bs. replicate 32 (length bs);
}

abbrev token : Token
token = record { mode = aes_256_cbc; signing_key = []; encryption_key = [] }

abbrev iv : Bytes
iv = replicate 16 0

-- The token of a single byte: the vector, a padded block, and the MAC.
abbrev sealed : Bytes
sealed = iv ++ (7 ∷ replicate 15 15) ++ replicate 32 32
