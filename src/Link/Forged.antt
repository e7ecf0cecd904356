-- ===== src/Link/Forged.antt =====
-- A proof with a wrong signature, and what a teardown leaves of the keys.
use reticulum.Prelude.{
  ℕ, ◌+◌, ◌≡◌, refl, ap, Bytes, List, [], ◌++◌, length, take, drop, Option, none, some, Bool, true,
  false, arith, ◌&&◌, ◌==◌, if◌then◌else◌,
}
use reticulum.Crypto.Token.{Token}
use reticulum.Link.{Link, pending, Effect, key_bytes, sig_bytes, link_mtu_size, is_pending}
use reticulum.Link.Signalling.{lp_start, mode_from_lp_packet}
use reticulum.Link.Keys.{World, handshake, decrypt, token_of}
use reticulum.Link.Establish.{Identity, check_proof, validate_proof}
use reticulum.Link.Closing.{link_closed, teardown}
use reticulum.Link.Events.{IsLive}

module _ (w : World) (identity : Identity) where
  validate_proof_other :
      (now interface : ℕ) (sent : Bool) (bs : Bytes) (l : Link)
      → is_pending l.status ≡ false
      → validate_proof w identity now interface sent bs l ≡ ([], l)
  unfolding validate_proof
  validate_proof_other now interface sent bs l h = rw h refl

  check_proof_wrong :
      (now interface : ℕ) (sent : Bool) (mtu : Option ℕ) (sb peer signature : Bytes) (l : Link)
      (prv : Bytes)
      → l.status ≡ pending
      → l.private_key ≡ some prv
      → identity.validate signature (l.link_id ++ peer ++ identity.sig_pub_bytes ++ sb) ≡ false
      → (is_pending (check_proof w identity now interface sent mtu sb peer signature l).1.status
          ≡ false)
        × (IsLive (check_proof w identity now interface sent mtu sb peer signature l).1.status → ⊥)
  unfolding check_proof handshake
  check_proof_wrong now interface sent mtu sb peer signature l prv first key wrong = ground arith

  either_dead :
      (b : Bool) (x y : List Effect × Link)
      → (is_pending x.1.status ≡ false) × (IsLive x.1.status → ⊥)
      → (is_pending y.1.status ≡ false) × (IsLive y.1.status → ⊥)
      → (is_pending (if b then x else y).1.status ≡ false)
        × (IsLive (if b then x else y).1.status → ⊥)
  either_dead true x y hx hy = hx
  either_dead false x y hx hy = hy

  wrong_dead :
      (now interface : ℕ) (sent : Bool) (bs : Bytes) (l : Link) (prv : Bytes)
      → l.status ≡ pending
      → l.initiator ≡ true
      → l.private_key ≡ some prv
      → length bs ≡ lp_start
      → identity.validate
          (take sig_bytes bs)
          (l.link_id ++ take key_bytes (drop sig_bytes bs) ++ identity.sig_pub_bytes ++ [])
        ≡ false
      → (is_pending (validate_proof w identity now interface sent bs l).1.status ≡ false)
        × (IsLive (validate_proof w identity now interface sent bs l).1.status → ⊥)
  unfolding validate_proof
  wrong_dead now interface sent bs l prv first side key whole wrong =
      let begun : is_pending l.status ≡ true = ap is_pending first in
      let plain : (length bs == lp_start + link_mtu_size) ≡ false = ground (arith, whole) in
      let fits : (l.initiator && length bs == lp_start) ≡ true = ground (arith, side, whole) in
      let read =
        check_proof_wrong now interface sent none [] (take key_bytes (drop sig_bytes bs))
          (take sig_bytes bs) l prv first key wrong in
      rw (begun, plain, fits)
        (either_dead (mode_from_lp_packet bs == l.mode) _ _ read (refl, λ live. live))

  -- A proof of 96 bytes, without signalling, with a wrong signature makes an initiator's pending link deaf: the link
  -- is not active, and no proof that comes after it, the destination's among them, has any effect.
  pub validate_proof_wrong :
      (now interface : ℕ) (sent : Bool) (bs : Bytes) (l : Link) (prv : Bytes)
      → l.status ≡ pending
      → l.initiator ≡ true
      → l.private_key ≡ some prv
      → length bs ≡ lp_start
      → identity.validate
          (take sig_bytes bs)
          (l.link_id ++ take key_bytes (drop sig_bytes bs) ++ identity.sig_pub_bytes ++ [])
        ≡ false
      → (IsLive (validate_proof w identity now interface sent bs l).1.status → ⊥)
        × ((later at : ℕ) (sent' : Bool) (proof : Bytes)
            → validate_proof w identity later at sent' proof
                (validate_proof w identity now interface sent bs l).1
              ≡ ([], (validate_proof w identity now interface sent bs l).1))
  validate_proof_wrong now interface sent bs l prv first side key whole wrong =
      let (other, dead) = wrong_dead now interface sent bs l prv first side key whole wrong in
      (dead, λ later at sent' proof. validate_proof_other later at sent' proof _ other)

  token_of_kept :
      (l l' : Link) (t : Token) → l.token ≡ some t → l'.token ≡ l.token → token_of l' ≡ token_of l
  unfolding token_of
  token_of_kept l l' t h same = rw (same, h) refl

  -- A teardown drops the derived key but not the token that was made of it: a link that has encrypted
  -- or decrypted before still decrypts what it did.
  pub decrypt-teardown :
      (now : ℕ) (sent : Bool) (bs : Bytes) (l : Link) (t : Token)
      → l.token ≡ some t
      → (decrypt w bs (teardown now sent l).1).0 ≡ (decrypt w bs l).0
  unfolding decrypt teardown link_closed
  decrypt-teardown now sent bs l t h = ground (arith, token_of_kept l (teardown now sent l).1 t h)
