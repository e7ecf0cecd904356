-- ===== src/Transport/Ifac/RoundTrip.antt =====
-- What Transport.transmit sends with an access code, taken in by Transport.inbound.
use reticulum.Prelude.{
  ℕ, suc, ◌+◌, ◌-◌, ◌≤◌, ◌<◌, ◌≡◌, refl, sym, ◌∙◌, ap, bit_and, bit_or, bit_xor, Bytes, length,
  length-append, length-drop, All-drop, take, take-append, drop, drop-append, bytes_eq_refl,
  Bool-cases, inl, inr, true, false, none, some, [], ◌∷◌, ◌++◌, ◌==◌, ne→==, leb, lt→ltb, le→leb,
  All-append, arith,
}
use reticulum.Prelude.Results.{ok}
use reticulum.Crypto.Hkdf.{AreBytes, hkdf-AreBytes}
use reticulum.Transport.Ifac.Unmask.{
  transmit_byte, inbound_byte, each_byte, unmask_rest, xor_cancel, first_cancel, flag_set,
  flag_clear,
}
use reticulum.Transport.Ifac.Codes.{
  Access, last_bytes, mask_for, transmit, check_ifac, unmask, admit,
}

module _ (hmac : Bytes → Bytes → Bytes) where
  module _ (mac_length : (k bs : Bytes) → length (hmac k bs) ≡ 32)
      (mac_bytes : (k bs : Bytes) → AreBytes (hmac k bs)) where
    mask_lem :
        (a : Access) (size : ℕ) (ifac : Bytes)
        → 0 < size
        → (mask : Bytes) × (mask_for hmac a size ifac ≡ ok mask)
          × (length mask ≡ size)
          × AreBytes mask
    unfolding mask_for
    mask_lem a size ifac pos =
        hkdf-AreBytes hmac mac_length mac_bytes size ifac (some a.ifac_key) none pos

    unmask_packet :
        (a : Access) (first second : ℕ) (rest ifac mask : Bytes)
        → first < 128
        → AreBytes (second ∷ rest)
        → AreBytes ifac
        → AreBytes mask
        → length ifac ≡ a.ifac_size
        → length mask ≡ 2 + length (ifac ++ rest)
        → (sent_first : ℕ) × (sent_rest : Bytes) × (each_byte
              (transmit_byte a.ifac_size)
              0
              (bit_or first 0x80 ∷ second ∷ (ifac ++ rest))
              mask
            ≡ some (sent_first ∷ sent_rest))
          × ((bit_and sent_first 0x80 == 0x80) ≡ true)
          × (length sent_rest ≡ suc (length (ifac ++ rest)))
          × (take a.ifac_size (drop 1 sent_rest) ≡ ifac)
          × (unmasked : ℕ) × (bit_and unmasked 0x7f ≡ first)
          × (each_byte (inbound_byte a.ifac_size) 0 (sent_first ∷ sent_rest) mask
              ≡ some (unmasked ∷ second ∷ (ifac ++ rest)))
    unfolding each_byte transmit_byte inbound_byte
    unmask_packet a first second rest ifac [] hf hbs hi hm li lm = absurd (omega arith)
    unmask_packet a first second rest ifac (m ∷ []) hf hbs hi hm li lm = absurd (omega arith)
    unmask_packet a first second rest ifac (m ∷ m' ∷ mask) hf (hs, hr) hi (hm, (hm', hms)) li lm =
        let (out, sent, received, same_length, code) =
          unmask_rest a.ifac_size 2 (ifac ++ rest) mask (omega arith)
            (All-append (λ b. b < 256) ifac rest hi hr) hms (omega arith) in
        let size_same : a.ifac_size + 2 - 2 ≡ a.ifac_size = omega arith in
        (
          bit_or (bit_xor (bit_or first 0x80) m) 0x80,
          bit_xor second m' ∷ out,
          rw sent refl,
          flag_set first m hf hm,
          ap suc same_length,
          rw size_same at code ∙ take-append a.ifac_size ifac rest li,
          bit_xor (bit_or (bit_xor (bit_or first 0x80) m) 0x80) m,
          first_cancel first m hf hm,
          rw (received, xor_cancel second m' hs hm') refl,
        )

    last_bytes_lem :
        (n : ℕ) (bytes : Bytes)
        → 0 < n
        → n ≤ length bytes
        → AreBytes bytes
        → (length (last_bytes n bytes) ≡ n) × AreBytes (last_bytes n bytes)
    last_bytes_lem n bytes pos le h = rw (ne→== n 0 (λ e. omega arith)) (
      omega (arith, length-drop (length bytes - n) bytes),
      All-drop (λ b. b < 256) (length bytes - n) bytes h,
    )

    check_ifac-unmasked :
        (a : Access) (unmasked first second : ℕ) (rest ifac : Bytes)
        → bit_and unmasked 0x7f ≡ first
        → length ifac ≡ a.ifac_size
        → ifac ≡ last_bytes a.ifac_size (a.sign (first ∷ second ∷ rest))
        → check_ifac hmac a ifac (unmasked ∷ second ∷ (ifac ++ rest)) ≡ some (first ∷ second ∷ rest)
    unfolding check_ifac
    check_ifac-unmasked a unmasked first second rest ifac back li signed =
        rw (back, drop-append a.ifac_size ifac rest li, sym signed, bytes_eq_refl ifac) refl

    unmask-masked :
        (a : Access) (raw ifac mask unmasked : Bytes)
        → take a.ifac_size (drop 2 raw) ≡ ifac
        → mask_for hmac a (length raw) ifac ≡ ok mask
        → each_byte (inbound_byte a.ifac_size) 0 raw mask ≡ some unmasked
        → unmask hmac a raw ≡ check_ifac hmac a ifac unmasked
    unfolding unmask
    unmask-masked a raw ifac mask unmasked code made walked =
        rw (unmask, code, made, walked) (ap (λ c. check_ifac hmac a c unmasked) code)

    admit-flagged :
        (a : Access) (first : ℕ) (rest : Bytes)
        → (bit_and first 0x80 == 0x80) ≡ true
        → 2 + a.ifac_size < length (first ∷ rest)
        → admit hmac (some a) (first ∷ rest) ≡ unmask hmac a (first ∷ rest)
    unfolding admit
    admit-flagged a first rest flag long =
        rw (le→leb (length (first ∷ rest)) 2 (omega arith), flag, lt→ltb _ _ long) refl

    transmit-masked :
        (a : Access) (first second : ℕ) (rest mask sent : Bytes)
        → mask_for hmac a
            (length (first ∷ second ∷ rest) + a.ifac_size)
            (last_bytes a.ifac_size (a.sign (first ∷ second ∷ rest)))
          ≡ ok mask
        → each_byte
            (transmit_byte a.ifac_size)
            0
            (bit_or first 0x80
              ∷ second
              ∷ (last_bytes a.ifac_size (a.sign (first ∷ second ∷ rest)) ++ rest))
            mask
          ≡ some sent
        → transmit hmac (some a) (first ∷ second ∷ rest) ≡ some sent
    unfolding transmit
    transmit-masked a first second rest mask sent made walked = rw (transmit, made, walked) refl

    admit-mismatch :
        (a : Access) (first : ℕ) (rest : Bytes)
        → ((bit_and first 0x80 == 0x80) ≡ true → admit hmac none (first ∷ rest) ≡ none)
          × ((bit_and first 0x80 == 0x80) ≡ false → admit hmac (some a) (first ∷ rest) ≡ none)
    unfolding admit
    admit-mismatch a first rest = elim (Bool-cases (leb (length (first ∷ rest)) 2)) [
      | inl short ↦ (λ flag. rw short refl, λ flag. rw short refl)
      | inr long ↦ (λ flag. rw (long, flag) refl, λ flag. rw (long, flag) refl)
    ]

    -- What an interface with an access code sends, an interface with the same code takes in as the
    -- packet that was sent, and an interface without a code drops, as one with a code drops the
    -- packet without it: for a packet of at least three bytes whose highest bit is clear, a code of
    -- at least one byte and at most as many as a signature has, and a MAC of 32 bytes.
    pub admit-transmit :
        (a : Access) (first second third : ℕ) (rest : Bytes)
        → first < 128
        → AreBytes (second ∷ third ∷ rest)
        → 0 < a.ifac_size
        → a.ifac_size ≤ length (a.sign (first ∷ second ∷ third ∷ rest))
        → AreBytes (a.sign (first ∷ second ∷ third ∷ rest))
        → (sent : Bytes) × (transmit hmac (some a) (first ∷ second ∷ third ∷ rest) ≡ some sent)
          × (admit hmac (some a) sent ≡ some (first ∷ second ∷ third ∷ rest))
          × (admit hmac none sent ≡ none)
          × (admit hmac (some a) (first ∷ second ∷ third ∷ rest) ≡ none)
    admit-transmit a first second third rest hf hbs pos le signed =
        let raw : Bytes = first ∷ second ∷ third ∷ rest in
        let ifac : Bytes = last_bytes a.ifac_size (a.sign raw) in
        let (li, hi) = last_bytes_lem a.ifac_size (a.sign raw) pos le signed in
        let (mask, made, lm, hm) = mask_lem a (length raw + a.ifac_size) ifac (omega arith) in
        let tail : Bytes = third ∷ rest in
        let joined : length (ifac ++ tail) ≡ length ifac + length tail = length-append ifac tail in
        let (sent_first, sent_rest, sent, flag, size, code, unmasked, back, walked) =
          unmask_packet a first second tail ifac mask hf hbs hi hm li (omega arith) in
        let same_size : length raw + a.ifac_size ≡ length (sent_first ∷ sent_rest) = omega arith in
        (
          sent_first ∷ sent_rest,
          transmit-masked a first second tail mask (sent_first ∷ sent_rest) made sent,
          admit-flagged a sent_first sent_rest flag (omega arith)
              ∙ unmask-masked a (sent_first ∷ sent_rest) ifac mask _ code
                  (ap (λ n. mask_for hmac a n ifac) (sym same_size) ∙ made) walked
              ∙ check_ifac-unmasked a unmasked first second tail ifac back li refl,
          (admit-mismatch a sent_first sent_rest).0 flag,
          (admit-mismatch a first (second ∷ tail)).1 (flag_clear first hf),
        )
