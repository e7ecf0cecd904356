-- ===== src/Identity/CipherTests.antt =====
-- Encryption for a destination that keeps two ratchets, at concrete values, with simple functions for
-- the curves and the MAC, which depend on the keys.
use reticulum.Prelude.{
  ℕ, ◌*◌, ◌+◌, ◌%◌, ◌≡◌, refl, ap, sym, Bytes, drop, replicate, [], ◌∷◌, ◌++◌, Bool, true, false,
  none, some,
}
use reticulum.Prelude.Results.{Result, ok, err}
use reticulum.Crypto.Hkdf.{hkdf, blocks}
use reticulum.Crypto.Pkcs7.{pad, unpad}
use reticulum.Crypto.Token.{Crypto, encrypt, init, decrypt, verify_hmac, open_token}
use reticulum.Identity.{Curves, Identity}
use reticulum.Identity.Known.{ratchet_id}
use reticulum.Identity.Cipher.{
  CipherError, Receiver, encrypt_with, encrypt_for, decrypt_for, try_ratchet, try_ratchets,
  decrypt_shared, token_for,
}
use reticulum.Identity.CipherTrip.{decrypt_for-encrypt_for}

abbrev first_byte : Bytes → ℕ
first_byte [] = 0
first_byte (b ∷ bs) = b

abbrev curves : Curves
curves = record {
  accepts_x = λ b. true;
  accepts_ed = λ b. true;
  accepts_prv = λ b. true;
  accepts_ed_prv = λ b. true;
  x_public = λ b. replicate 32 (first_byte b);
  ed_public = λ b. b;
  exchange = λ a b. some (replicate 32 ((first_byte a * first_byte b) % 256));
  ed_sign = λ key message. replicate 64 1;
  ed_verify = λ key signature message. true;
}

abbrev crypto : Crypto
crypto = record {
  encrypt = λ mode payload key iv. payload;
  decrypt = λ mode ciphertext key iv. ok ciphertext;
  hmac = λ key bs. replicate 32 ((first_byte key + first_byte bs) % 256);
}

abbrev sha : Bytes → Bytes
sha bs = bs

abbrev identity : Identity
identity = record {
  prv = some (replicate 32 2);
  sig_prv = some (replicate 32 5);
  pub_bytes = replicate 32 2;
  sig_pub_bytes = replicate 32 3;
  x_pub = some (replicate 32 2);
  sig_pub = some (replicate 32 3);
  hash = some (replicate 16 2);
}

abbrev iv : Bytes
iv = replicate 16 0

abbrev ephemeral : Bytes
ephemeral = replicate 32 5

-- The ratchet in use, and a newer one, which the sender has not seen.
abbrev ratchet : Bytes
ratchet = replicate 32 3

abbrev newer_ratchet : Bytes
newer_ratchet = replicate 32 9

abbrev receiver : Receiver
receiver = record { latest_ratchet_id = none }

-- What follows the public key of what was sent.
abbrev sealed_part : Result CipherError Bytes → Bytes
sealed_part (ok token) = drop 32 token
sealed_part (err e) = []

not_opened :
    (sealed : Bytes)
    → encrypt_for curves crypto sha identity ephemeral iv (1 ∷ []) (some (curves.x_public ratchet))
      ≡ ok (curves.x_public ephemeral ++ sealed)
    → try_ratchets curves crypto sha identity
        (curves.x_public ephemeral)
        sealed
        (newer_ratchet ∷ [])
      ≡ none
unfolding encrypt_for encrypt_with try_ratchets try_ratchet decrypt_shared token_for hkdf blocks
    init encrypt decrypt verify_hmac open_token pad unpad
not_opened sealed h = sym (
    ap
      (λ r.
        try_ratchets curves crypto sha identity (curves.x_public ephemeral) (sealed_part r)
          (newer_ratchet ∷ []))
      h)

own_not_opened :
    (sealed : Bytes)
    → encrypt_for curves crypto sha identity ephemeral iv (1 ∷ []) none
      ≡ ok (curves.x_public ephemeral ++ sealed)
    → try_ratchets curves crypto sha identity
        (curves.x_public ephemeral)
        sealed
        (newer_ratchet ∷ [])
      ≡ none
unfolding encrypt_for encrypt_with try_ratchets try_ratchet decrypt_shared token_for hkdf blocks
    init encrypt decrypt verify_hmac open_token pad unpad
own_not_opened sealed h = sym (
    ap
      (λ r.
        try_ratchets curves crypto sha identity (curves.x_public ephemeral) (sealed_part r)
          (newer_ratchet ∷ []))
      h)

decrypt_for-encrypt_for_example :
    (with_ratchet with_own : Bytes) × (encrypt_for curves crypto sha identity ephemeral iv
        (1 ∷ [])
        (some (curves.x_public ratchet))
      ≡ ok with_ratchet)
    × ((enforce : Bool)
        → decrypt_for curves crypto sha identity with_ratchet
            (some ((newer_ratchet ∷ []) ++ (ratchet ∷ [])))
            enforce
            receiver
          ≡ ok (
            some (1 ∷ []),
            record { latest_ratchet_id = some (ratchet_id sha (curves.x_public ratchet)) },
          ))
    × (encrypt_for curves crypto sha identity ephemeral iv (1 ∷ []) none ≡ ok with_own)
    × (decrypt_for curves crypto sha identity with_own (some (newer_ratchet ∷ [])) false receiver
        ≡ ok (some (1 ∷ []), record { latest_ratchet_id = none }))
    × (decrypt_for curves crypto sha identity with_own (some (newer_ratchet ∷ [])) true receiver
        ≡ ok (none, record { latest_ratchet_id = none }))
decrypt_for-encrypt_for_example =
    decrypt_for-encrypt_for curves crypto sha (λ key bs. refl) iv refl (λ t padded whole. refl)
      identity identity ephemeral (1 ∷ []) receiver ratchet (replicate 32 2) (replicate 32 2)
      (newer_ratchet ∷ []) [] (replicate 32 15) (replicate 32 10) refl refl refl refl refl refl refl
      refl refl refl refl not_opened own_not_opened
