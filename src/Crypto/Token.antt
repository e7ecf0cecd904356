-- ===== src/Crypto/Token.antt =====
-- Token of RNS/Cryptography/Token.py. The cipher and the MAC are parameters: CBC encryption and
-- decryption by key and initialisation vector, and HMAC-SHA256 by key.
use mathlib.Core.List.{append_assoc}
use reticulum.Prelude.{
  ◌-◌, ◌%◌, ◌<◌, ◌≡◌, refl, ◌∙◌, Bytes, length, length-append, take, drop, take-append, drop-append,
  ◌++◌, Bool, true, false, bytes_eq, bytes_eq_refl, bytes_eq_sound, leb, leb→lt, le→leb, ◌==◌,
  arith, if◌then◌else◌,
}
use reticulum.Prelude.Results.{Result, ok, err}
use reticulum.Crypto.Pkcs7.{pad, unpad, unpad-pad, pad-length}

pub data TokenError : Type 0 where
  bad_key_length too_short bad_hmac undecryptable not_padded : TokenError

pub data Mode : Type 0 where
  aes_128_cbc aes_256_cbc : Mode

pub record Token : Type 0 where
  pub mode : Mode
  pub signing_key : Bytes
  pub encryption_key : Bytes

-- Token.__init__, with a key that is not None and the mode AES.
unfoldable pub init : Bytes → Result TokenError Token
init key =
    if length key == 32
    then ok (record { mode = aes_128_cbc; signing_key = take 16 key; encryption_key = drop 16 key })
    else if length key == 64
    then ok (record { mode = aes_256_cbc; signing_key = take 32 key; encryption_key = drop 32 key })
    else err bad_key_length

-- `encrypt` and `decrypt` of a mode take plaintext, key and initialisation vector. A ciphertext
-- that is no number of whole blocks makes the decryption raise.
pub record Crypto : Type 0 where
  pub encrypt : Mode → Bytes → Bytes → Bytes → Bytes
  pub decrypt : Mode → Bytes → Bytes → Bytes → Result TokenError Bytes
  pub hmac : Bytes → Bytes → Bytes

-- `token[:-32]` and `token[-32:]`, for a token of at least 32 bytes.
abbrev pub signed_part : Bytes → Bytes
signed_part token = take (length token - 32) token

abbrev pub hmac_part : Bytes → Bytes
hmac_part token = drop (length token - 32) token

module _ (x : Crypto) where
  unfoldable pub verify_hmac : Token → Bytes → Result TokenError Bool
  verify_hmac t token =
      if leb (length token) 32
      then err too_short
      else if bytes_eq (hmac_part token) (x.hmac t.signing_key (signed_part token))
      then ok true
      else ok false

  -- `iv` is what `os.urandom(16)` returns.
  unfoldable pub encrypt : Token → Bytes → Bytes → Result TokenError Bytes
  encrypt t iv payload = elim (pad 16 payload) [
    | err e ↦ err not_padded
    | ok padded ↦
        (let signed_parts = iv ++ x.encrypt t.mode padded t.encryption_key iv in
          ok (signed_parts ++ x.hmac t.signing_key signed_parts))
  ]

  -- `token[:16]` and `token[16:-32]`, and the `try` around decryption and padding.
  unfoldable pub open_token : Token → Bytes → Result TokenError Bytes
  open_token t token =
      let iv = take 16 token in
      let ciphertext = drop 16 (signed_part token) in
      elim (x.decrypt t.mode ciphertext t.encryption_key iv) [
        | err e ↦ err undecryptable
        | ok padded ↦ elim (unpad 16 padded) [ err e ↦ err undecryptable | ok payload ↦ ok payload ]
      ]

  unfoldable pub decrypt : Token → Bytes → Result TokenError Bytes
  decrypt t token = elim (verify_hmac t token) [
    | err e ↦ err e
    | ok valid ↦ if valid then open_token t token else err bad_hmac
  ]

  verify_hmac-true :
      (t : Token) (token : Bytes)
      → verify_hmac t token ≡ ok true
      → (32 < length token)
        × (bytes_eq (hmac_part token) (x.hmac t.signing_key (signed_part token)) ≡ true)
  unfolding verify_hmac
  verify_hmac-true t token h = by_tests (leb (length token) 32) _ refl refl
    where
      by_tests :
          (short same : Bool)
          → leb (length token) 32 ≡ short
          → bytes_eq (hmac_part token) (x.hmac t.signing_key (signed_part token)) ≡ same
          → (32 < length token)
            × (bytes_eq (hmac_part token) (x.hmac t.signing_key (signed_part token)) ≡ true)
      by_tests true same e f = absurd (cc (rw (e, verify_hmac) at h))
      by_tests false true e f = (leb→lt (length token) 32 e, f)
      by_tests false false e f = absurd (cc (rw (e, verify_hmac) at h))

  decrypt-verified :
      (t : Token) (token payload : Bytes)
      → decrypt t token ≡ ok payload
      → (verify_hmac t token ≡ ok true) × (open_token t token ≡ ok payload)
  unfolding decrypt
  decrypt-verified t token payload h = ground arith

  -- A token with a wrong MAC, or too short for one, is refused before anything is decrypted: what
  -- `decrypt` returns is the content of a token whose last 32 bytes are the MAC of the rest.
  pub decrypt-authentic :
      (t : Token) (token payload : Bytes)
      → decrypt t token ≡ ok payload
      → (32 < length token)
        × (hmac_part token ≡ x.hmac t.signing_key (signed_part token))
        × (open_token t token ≡ ok payload)
  decrypt-authentic t token payload h =
      let (verified, opened) = decrypt-verified t token payload h in
      let (long, same) = verify_hmac-true t token verified in
      (long, bytes_eq_sound _ _ same, opened)

  module _ (t : Token) (iv payload : Bytes) (iv_length : length iv ≡ 16)
      (mac_length : (key bs : Bytes) → length (x.hmac key bs) ≡ 32)
      (inverse : (padded : Bytes)
        → length padded % 16 ≡ 0
        → x.decrypt t.mode (x.encrypt t.mode padded t.encryption_key iv) t.encryption_key iv
          ≡ ok padded) where
    body : Bytes → Bytes
    body padded = iv ++ x.encrypt t.mode padded t.encryption_key iv

    sealed : Bytes → Bytes
    unfolding body
    sealed padded = body padded ++ x.hmac t.signing_key (body padded)

    signed_part-sealed : (padded : Bytes) → signed_part (sealed padded) ≡ body padded
    unfolding sealed
    signed_part-sealed padded = take-append _ (body padded) _ (
        omega (
          arith,
          length-append (body padded) (x.hmac t.signing_key (body padded)),
          mac_length t.signing_key (body padded),
        ))

    hmac_part-sealed :
        (padded : Bytes) → hmac_part (sealed padded) ≡ x.hmac t.signing_key (body padded)
    unfolding sealed
    hmac_part-sealed padded = drop-append _ (body padded) _ (
        omega (
          arith,
          length-append (body padded) (x.hmac t.signing_key (body padded)),
          mac_length t.signing_key (body padded),
        ))

    sealed_long : (padded : Bytes) → 32 < length (sealed padded)
    unfolding sealed
    sealed_long padded = omega (
      arith,
      length-append (body padded) (x.hmac t.signing_key (body padded)),
      length-append iv (x.encrypt t.mode padded t.encryption_key iv),
      mac_length t.signing_key (body padded),
    )

    verify-sealed : (padded : Bytes) → verify_hmac t (sealed padded) ≡ ok true
    unfolding verify_hmac
    verify-sealed padded =
        rw
          (
            verify_hmac,
            le→leb _ _ (sealed_long padded),
            signed_part-sealed padded,
            hmac_part-sealed padded,
            bytes_eq_refl (x.hmac t.signing_key (body padded)),
          )
          refl

    iv-sealed : (padded : Bytes) → take 16 (sealed padded) ≡ iv
    unfolding sealed body
    iv-sealed padded =
        rw
          (append_assoc iv (x.encrypt t.mode padded t.encryption_key iv)
            (x.hmac t.signing_key (body padded)))
          (take-append 16 iv _ iv_length)

    ciphertext-sealed :
        (padded : Bytes)
        → drop 16 (signed_part (sealed padded)) ≡ x.encrypt t.mode padded t.encryption_key iv
    ciphertext-sealed padded =
        rw (signed_part-sealed padded) (unfold body in drop-append 16 iv _ iv_length)

    decrypts :
        (padded : Bytes)
        → length padded % 16 ≡ 0
        → x.decrypt t.mode
            (drop 16 (signed_part (sealed padded)))
            t.encryption_key
            (take 16 (sealed padded))
          ≡ ok padded
    decrypts padded whole = rw (ciphertext-sealed padded, iv-sealed padded) (inverse padded whole)

    open-sealed :
        (padded : Bytes)
        → length padded % 16 ≡ 0
        → unpad 16 padded ≡ ok payload
        → open_token t (sealed padded) ≡ ok payload
    unfolding open_token
    open-sealed padded whole removed = rw (decrypts padded whole, open_token) (rw removed)

    encrypt-pad :
        (padded : Bytes) → pad 16 payload ≡ ok padded → encrypt t iv payload ≡ ok (sealed padded)
    unfolding encrypt sealed body
    encrypt-pad padded made = rw (made, encrypt)

    decrypt-verify :
        (token : Bytes) → verify_hmac t token ≡ ok true → decrypt t token ≡ open_token t token
    unfolding decrypt
    decrypt-verify token verified = rw (verified, decrypt)

    -- What `encrypt` makes `decrypt` opens, whatever the payload: given that the MAC has 32 bytes
    -- and that CBC decryption undoes CBC encryption of whole blocks.
    pub decrypt-encrypt :
        (token : Bytes) × (encrypt t iv payload ≡ ok token) × (decrypt t token ≡ ok payload)
    decrypt-encrypt =
        let (padded, made, removed) = unpad-pad 16 payload (omega arith) (omega arith) in
        let whole : length padded % 16 ≡ 0 = (pad-length 16 payload (omega arith) made).0 in
        (
          sealed padded,
          encrypt-pad padded made,
          decrypt-verify (sealed padded) (verify-sealed padded) ∙ open-sealed padded whole removed,
        )
