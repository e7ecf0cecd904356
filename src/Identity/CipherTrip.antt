-- ===== src/Identity/CipherTrip.antt =====
-- What Identity.encrypt makes, Identity.decrypt opens: with a ratchet and with the identity's own
-- key.
use reticulum.Prelude.{
  ◌%◌, ◌<◌, ◌≡◌, refl, ap, ◌∙◌, Bytes, length, take, drop, List, ◌∷◌, ◌++◌, Bool, true, false,
  Option, none, some, arith,
}
use reticulum.Prelude.Results.{ok}
use reticulum.Crypto.Hkdf.{hkdf-prefix}
use reticulum.Crypto.Token.{Token, Crypto, init, aes_256_cbc, decrypt-encrypt, decrypt-authentic}
use reticulum.Identity.{Curves, Identity, half_key}
use reticulum.Identity.Known.{ratchet_id}
use reticulum.Identity.Cipher.{
  Receiver, token_for, encrypt_with, encrypt_for, decrypt_shared, try_ratchet, try_ratchets,
  decrypt_for,
}
use reticulum.Identity.Opening.{later_ratchet, reach_lem, opened_by_ratchet, opened_by_own_key}

init_lem : (key : Bytes) → length key ≡ 64 → (t : Token) × (init key ≡ ok t)
unfolding init
init_lem key h = (
  record { mode = aes_256_cbc; signing_key = take 32 key; encryption_key = drop 32 key },
  rw (init, h) refl,
)

module _ (x : Curves) (c : Crypto) (sha256 : Bytes → Bytes)
    (mac_length : (key bs : Bytes) → length (c.hmac key bs) ≡ 32) where
  token_lem :
      (salt : Option Bytes) (shared_key : Bytes)
      → (t : Token) × (token_for x c sha256 salt shared_key ≡ ok t)
  unfolding token_for
  token_lem salt shared_key =
      let (short, key, made, made', size, size', prefix) =
        hkdf-prefix c.hmac mac_length 64 64 shared_key salt none (omega arith) (omega arith) in
      let (t, opened) = init_lem key size' in (t, rw (token_for, made', opened) refl)

  module _ (iv : Bytes) (iv_length : length iv ≡ 16)
      (inverse : (t : Token) (padded : Bytes)
        → length padded % 16 ≡ 0
        → c.decrypt t.mode (c.encrypt t.mode padded t.encryption_key iv) t.encryption_key iv
          ≡ ok padded) where
    -- A shared key that both sides have.
    shared_lem :
        (from to : Identity) (ephemeral own target shared_key plaintext : Bytes)
        → from.hash ≡ to.hash
        → x.exchange ephemeral target ≡ some shared_key
        → x.exchange own (x.x_public ephemeral) ≡ some shared_key
        → (ciphertext : Bytes) × (encrypt_with x c sha256 from ephemeral iv target plaintext
            ≡ ok (x.x_public ephemeral ++ ciphertext))
          × (decrypt_shared x c sha256 to own (x.x_public ephemeral) ciphertext ≡ some plaintext)
          × (0 < length ciphertext)
    unfolding encrypt_with decrypt_shared
    shared_lem from to ephemeral own target shared_key plaintext h e d =
        let (t, made) = token_lem to.hash shared_key in
        let made' : token_for x c sha256 from.hash shared_key ≡ ok t =
          ap (λ s. token_for x c sha256 s shared_key) h ∙ made in
        let (ciphertext, sealed, opened) =
          decrypt-encrypt c t iv plaintext iv_length mac_length (inverse t) in
        (
          ciphertext,
          rw (encrypt_with, e, made', sealed) refl,
          rw (decrypt_shared, d, made, opened) refl,
          omega (arith, (decrypt-authentic c t ciphertext plaintext opened).0),
        )

    with_ratchet_lem :
        (from : Identity) (ephemeral plaintext own ratchet_pub token : Bytes)
        → from.x_pub ≡ some own
        → x.accepts_x ratchet_pub ≡ true
        → encrypt_with x c sha256 from ephemeral iv ratchet_pub plaintext ≡ ok token
        → encrypt_for x c sha256 from ephemeral iv plaintext (some ratchet_pub) ≡ ok token
    unfolding encrypt_for
    with_ratchet_lem from ephemeral plaintext own ratchet_pub token f a made =
        rw (encrypt_for, f, a) made

    with_own_lem :
        (from : Identity) (ephemeral plaintext own token : Bytes)
        → from.x_pub ≡ some own
        → encrypt_with x c sha256 from ephemeral iv own plaintext ≡ ok token
        → encrypt_for x c sha256 from ephemeral iv plaintext none ≡ ok token
    unfolding encrypt_for
    with_own_lem from ephemeral plaintext own token f made = rw (encrypt_for, f) made

    -- What is encrypted for an identity, with a ratchet of its own or for its own key, the identity
    -- decrypts, and gets the id of the ratchet or none: given that both sides compute the same
    -- shared key, that keys have 32 bytes and the MAC too, and that CBC decryption undoes
    -- encryption; and that the ratchets before the right one do not open what was sent for it, nor
    -- what was sent for the own key.
    pub decrypt_for-encrypt_for :
        (from to : Identity) (ephemeral plaintext : Bytes) (receiver : Receiver)
        (ratchet prv from_pub : Bytes) (before after : List Bytes) (shared_key own_shared : Bytes)
        → from.hash ≡ to.hash
        → to.prv ≡ some prv
        → from.x_pub ≡ some from_pub
        → length (x.x_public ephemeral) ≡ half_key
        → x.accepts_x (x.x_public ephemeral) ≡ true
        → x.accepts_x (x.x_public ratchet) ≡ true
        → x.accepts_prv ratchet ≡ true
        → x.exchange ephemeral (x.x_public ratchet) ≡ some shared_key
        → x.exchange ratchet (x.x_public ephemeral) ≡ some shared_key
        → x.exchange ephemeral from_pub ≡ some own_shared
        → x.exchange prv (x.x_public ephemeral) ≡ some own_shared
        → ((sealed : Bytes)
            → encrypt_for x c sha256 from ephemeral iv plaintext (some (x.x_public ratchet))
              ≡ ok (x.x_public ephemeral ++ sealed)
            → try_ratchets x c sha256 to (x.x_public ephemeral) sealed before ≡ none)
        → ((sealed : Bytes)
            → encrypt_for x c sha256 from ephemeral iv plaintext none
              ≡ ok (x.x_public ephemeral ++ sealed)
            → try_ratchets x c sha256 to (x.x_public ephemeral) sealed before ≡ none)
        → (with_ratchet with_own : Bytes) × (encrypt_for x c sha256 from ephemeral iv plaintext
              (some (x.x_public ratchet))
            ≡ ok with_ratchet)
          × ((enforce : Bool)
              → decrypt_for x c sha256 to with_ratchet
                  (some (before ++ (ratchet ∷ after)))
                  enforce
                  receiver
                ≡ ok (
                  some plaintext,
                  record { latest_ratchet_id = some (ratchet_id sha256 (x.x_public ratchet)) },
                ))
          × (encrypt_for x c sha256 from ephemeral iv plaintext none ≡ ok with_own)
          × (decrypt_for x c sha256 to with_own (some before) false receiver
              ≡ ok (some plaintext, record { latest_ratchet_id = none }))
          × (decrypt_for x c sha256 to with_own (some before) true receiver
              ≡ ok (none, record { latest_ratchet_id = none }))
    unfolding try_ratchet
    decrypt_for-encrypt_for from to ephemeral plaintext receiver ratchet prv from_pub before after
          shared_key own_shared h p f l a ar ap' e d e' d' closed own_closed =
        let peer : Bytes = x.x_public ephemeral in
        let (sealed, made, opens, pos) =
          shared_lem from to ephemeral ratchet (x.x_public ratchet) shared_key plaintext h e d in
        let (sealed', made', opens', pos') =
          shared_lem from to ephemeral prv from_pub own_shared plaintext h e' d' in
        let turn : try_ratchet x c sha256 to peer sealed ratchet ≡ some plaintext =
          rw (try_ratchet, ap') opens in
        let sent =
          with_ratchet_lem from ephemeral plaintext from_pub (x.x_public ratchet) (peer ++ sealed) f
            ar made in
        let sent' = with_own_lem from ephemeral plaintext from_pub (peer ++ sealed') f made' in
        let found =
          later_ratchet x c sha256 to peer sealed before ratchet after plaintext
            (closed sealed sent) turn in
        let own =
          opened_by_own_key x c sha256 to prv peer sealed' plaintext before
            (own_closed sealed' sent') opens' in
        (
          peer ++ sealed,
          peer ++ sealed',
          sent,
          λ enforce.
              reach_lem x c sha256 to prv peer sealed (before ++ (ratchet ∷ after)) enforce receiver
                p l a pos
              ∙ ap ok (
                  opened_by_ratchet x c sha256 to prv peer sealed plaintext
                    (ratchet_id sha256 (x.x_public ratchet)) (before ++ (ratchet ∷ after)) enforce
                    found),
          sent',
          reach_lem x c sha256 to prv peer sealed' before false receiver p l a pos' ∙ ap ok own.0,
          reach_lem x c sha256 to prv peer sealed' before true receiver p l a pos' ∙ ap ok own.1,
        )
