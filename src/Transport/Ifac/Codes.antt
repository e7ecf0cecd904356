-- ===== src/Transport/Ifac/Codes.antt =====
-- Transport.transmit and the beginning of Transport.inbound: the access code that an interface
-- puts into what it sends and asks of what it receives. The MAC under `hkdf` and the signature of
-- the interface's identity are parameters.
use reticulum.Prelude.{
  ℕ, ◌+◌, ◌-◌, ◌<◌, ◌≡◌, ◌∙◌, ap, bit_and, bit_or, Bytes, length, take, drop, bytes_eq,
  bytes_eq_sound, Bool-cases, Option-cases, inl, inr, Option, none, some, [], ◌∷◌, ◌++◌, ◌==◌, leb,
  ltb, arith, if◌then◌else◌,
}
use reticulum.Prelude.Results.{Result, ok, err, Result-cases}
use reticulum.Crypto.Hkdf.{HkdfError, hkdf}
use reticulum.Transport.Ifac.Unmask.{transmit_byte, inbound_byte, each_byte}

-- What an interface with an access code has: `ifac_identity` by its method `sign`.
pub record Access : Type 0 where
  pub ifac_size : ℕ
  pub ifac_key : Bytes
  pub sign : Bytes → Bytes

-- `bytes[-n:]`, which is all of `bytes` where n is 0.
abbrev pub last_bytes : ℕ → Bytes → Bytes
last_bytes n bytes = if n == 0 then bytes else drop (length bytes - n) bytes

module _ (hmac : Bytes → Bytes → Bytes) where
  unfoldable pub mask_for : Access → ℕ → Bytes → Result HkdfError Bytes
  mask_for a size ifac = hkdf hmac size (some ifac) (some a.ifac_key) none

  -- What goes to `process_outgoing`; `none` where the code raises, which is logged.
  unfoldable pub transmit : Option Access → Bytes → Option Bytes
  transmit none raw = some raw
  transmit (some a) [] = none
  transmit (some a) (first ∷ []) = none
  transmit (some a) (first ∷ second ∷ rest) =
      let raw = first ∷ second ∷ rest in
      let ifac = last_bytes a.ifac_size (a.sign raw) in
      elim (mask_for a (length raw + a.ifac_size) ifac) [
        | err e ↦ none
        | ok mask ↦
            each_byte (transmit_byte a.ifac_size) 0 (bit_or first 0x80 ∷ second ∷ (ifac ++ rest))
              mask
      ]

  -- `new_raw` of the unmasked packet and the check of `ifac` against it.
  unfoldable pub check_ifac : Access → Bytes → Bytes → Option Bytes
  check_ifac a ifac [] = none
  check_ifac a ifac (first ∷ []) = none
  check_ifac a ifac (first ∷ second ∷ rest) =
      let new_raw = bit_and first 0x7f ∷ second ∷ drop a.ifac_size rest in
      if bytes_eq ifac (last_bytes a.ifac_size (a.sign new_raw)) then some new_raw else none

  abbrev pub check_unmasked : Access → Bytes → Option Bytes → Option Bytes
  check_unmasked a ifac none = none
  check_unmasked a ifac (some raw) = check_ifac a ifac raw

  unfoldable pub unmask : Access → Bytes → Option Bytes
  unmask a raw =
      let ifac = take a.ifac_size (drop 2 raw) in
      elim (mask_for a (length raw) ifac) [
        | err e ↦ none
        | ok mask ↦ check_unmasked a ifac (each_byte (inbound_byte a.ifac_size) 0 raw mask)
      ]

  -- The packet that `inbound` goes on with, or `none` where it drops what was received.
  unfoldable pub admit : Option Access → Bytes → Option Bytes
  admit access [] = none
  admit none (first ∷ rest) =
      if leb (length (first ∷ rest)) 2
      then none
      else if bit_and first 0x80 == 0x80
      then none
      else some (first ∷ rest)
  admit (some a) (first ∷ rest) =
      if leb (length (first ∷ rest)) 2
      then none
      else if bit_and first 0x80 == 0x80
      then (if ltb (2 + a.ifac_size) (length (first ∷ rest)) then unmask a (first ∷ rest) else none)
      else none

  check_ifac-signed :
      (a : Access) (ifac raw new_raw : Bytes)
      → check_ifac a ifac raw ≡ some new_raw
      → ifac ≡ last_bytes a.ifac_size (a.sign new_raw)
  unfolding check_ifac
  check_ifac-signed a ifac [] new_raw h = absurd (cc h)
  check_ifac-signed a ifac (first ∷ []) new_raw h = absurd (cc h)
  check_ifac-signed a ifac (first ∷ second ∷ rest) new_raw h =
      let stripped : Bytes = bit_and first 0x7f ∷ second ∷ drop a.ifac_size rest in
      elim (Bool-cases (bytes_eq ifac (last_bytes a.ifac_size (a.sign stripped)))) [
        | inl same ↦
            let kept : some stripped ≡ some new_raw = rw same at h in
            let back : stripped ≡ new_raw = cc in
            bytes_eq_sound _ _ same ∙ ap (λ p. last_bytes a.ifac_size (a.sign p)) back
        | inr differs ↦ let dropped : none ≡ some new_raw = rw differs at h in absurd (cc dropped)
      ]

  unmask-signed :
      (a : Access) (raw new_raw : Bytes)
      → unmask a raw ≡ some new_raw
      → take a.ifac_size (drop 2 raw) ≡ last_bytes a.ifac_size (a.sign new_raw)
  unfolding unmask
  unmask-signed a raw new_raw h =
      let ifac : Bytes = take a.ifac_size (drop 2 raw) in
      elim (Result-cases (mask_for a (length raw) ifac)) [
        | inl (mask, made) ↦ elim (Option-cases (each_byte (inbound_byte a.ifac_size) 0 raw mask)) [
          | inl stuck ↦
              let dropped : none ≡ some new_raw = rw (unmask, made, stuck) at h in
              absurd (cc dropped)
          | inr (unmasked, walked) ↦
              check_ifac-signed a ifac unmasked new_raw (rw (unmask, made, walked) at h)
        ]
        | inr (e, failed) ↦
            let dropped : none ≡ some new_raw = rw (unmask, failed) at h in absurd (cc dropped)
      ]

  admit-unmask :
      (a : Access) (first : ℕ) (rest new_raw : Bytes)
      → admit (some a) (first ∷ rest) ≡ some new_raw
      → (2 + a.ifac_size < length (first ∷ rest)) × (unmask a (first ∷ rest) ≡ some new_raw)
  unfolding admit
  admit-unmask a first rest new_raw h = ground arith

  -- What an interface with an access code takes in carries the code that the interface's identity
  -- signs for it: it was longer than its header and the code, and the bytes of the code are the end
  -- of the signature of the packet that `inbound` goes on with.
  pub admit-signed :
      (a : Access) (raw new_raw : Bytes)
      → admit (some a) raw ≡ some new_raw
      → (2 + a.ifac_size < length raw)
        × (take a.ifac_size (drop 2 raw) ≡ last_bytes a.ifac_size (a.sign new_raw))
  unfolding admit
  admit-signed a [] new_raw h = absurd (cc h)
  admit-signed a (first ∷ rest) new_raw h =
      let (long, opened) = admit-unmask a first rest new_raw h in
      (long, unmask-signed a (first ∷ rest) new_raw opened)
