-- ===== src/Link/Handshake.antt =====
-- The establishment of a link from both sides: what the destination makes of the initiator's request,
-- and the initiator of its proof.
use reticulum.Prelude.{
  ℕ, ◌+◌, ◌%◌, ◌≡◌, refl, sym, ap, ◌∙◌, Bytes, List, [], ◌∷◌, ◌++◌, length, length-append, take,
  take-all, take-append, drop, drop-append, Option, some, true, arith, ◌&&◌, ◌==◌, ==_iff,
}
use reticulum.Link.{
  Link, pending, handshaking, active, key_bytes, sig_bytes, link_mtu_size, Effect, is_pending,
  had_outbound, sends_rtt, established,
}
use reticulum.Link.Signalling.{
  lp_start, signalling_bytes, mtu_behind-signalling_bytes, mode_from_lp_packet,
}
use reticulum.Link.Keys.{World, derive_key}
use reticulum.Link.Establish.{
  Identity, mtu_or_default, validate_request, activate, read_proof, read_known, read_signalled,
  check_proof, validate_proof,
}
use reticulum.Link.Answer.{
  mtu_or_default_below, mtu_or_default_twice, then_branch, lr_data, lp_data, handshake-derived,
  validate_request_lem,
}

module _ (w : World) (identity : Identity) (key_length : (a : Bytes) → length (w.public_key a) ≡ 32)
    (keys : (a : Bytes) → w.is_key (w.public_key a) ≡ true)
    (agree : (a b : Bytes) → w.exchange a (w.public_key b) ≡ w.exchange b (w.public_key a))
    (sig_length : (bs : Bytes) → length (identity.sign bs) ≡ 64)
    (validates : (bs : Bytes) → identity.validate (identity.sign bs) bs ≡ true)
    (identity_key : w.is_key identity.sig_pub_bytes ≡ true) where
  derive_key_agree :
      (a b : Bytes) (mode : ℕ) (link_id : Bytes)
      → derive_key w a (w.public_key b) mode link_id ≡ derive_key w b (w.public_key a) mode link_id
  unfolding derive_key
  derive_key_agree a b mode link_id = rw (derive_key, agree a b) refl

  lp_parts :
      (prv link_id sb : Bytes)
      → let sig : Bytes =
          identity.sign (link_id ++ w.public_key prv ++ identity.sig_pub_bytes ++ sb) in
        (length (sig ++ w.public_key prv) ≡ lp_start)
        × (take lp_start (lp_data w identity prv link_id sb) ≡ sig ++ w.public_key prv)
        × (take sig_bytes (sig ++ w.public_key prv) ≡ sig)
        × (take key_bytes (drop sig_bytes (sig ++ w.public_key prv)) ≡ w.public_key prv)
  lp_parts prv link_id sb =
      let m : Bytes = link_id ++ w.public_key prv ++ identity.sig_pub_bytes ++ sb in
      let sig : Bytes = identity.sign m in
      let size : length (sig ++ w.public_key prv) ≡ lp_start =
        omega (arith, length-append sig (w.public_key prv), sig_length m, key_length prv) in
      let alone : take key_bytes (w.public_key prv) ≡ w.public_key prv =
        take-all key_bytes (w.public_key prv) (omega (arith, key_length prv)) in
      (
        size,
        take-append lp_start (sig ++ w.public_key prv) sb size,
        take-append sig_bytes sig (w.public_key prv) (sig_length m),
        ap (take key_bytes) (drop-append sig_bytes sig (w.public_key prv) (sig_length m)) ∙ alone,
      )

  -- With the destination's own proof, what follows its length.
  check_proof_lem :
      (l : Link) (prv prv_d key sb : Bytes) (now interface mtu : ℕ)
      → l.status ≡ pending
      → l.private_key ≡ some prv
      → derive_key w prv (w.public_key prv_d) l.mode l.link_id ≡ some key
      → check_proof w identity now interface true
          (some mtu)
          sb
          (w.public_key prv_d)
          (identity.sign (l.link_id ++ w.public_key prv_d ++ identity.sig_pub_bytes ++ sb))
          l
        ≡ (
          sends_rtt ∷ established ∷ [],
          had_outbound now (
              activate w identity now interface (some mtu) (record l {
                peer_pub_bytes = some (w.public_key prv_d);
                status = handshaking;
                derived_key = some key;
              })),
        )
  unfolding check_proof
  check_proof_lem l prv prv_d key sb now interface mtu first own secret =
      let m : Bytes = l.link_id ++ w.public_key prv_d ++ identity.sig_pub_bytes ++ sb in
      let shaken =
        handshake-derived w identity key_length keys
          (record l { peer_pub_bytes = some (w.public_key prv_d) }) prv (w.public_key prv_d) key own
          refl first secret in
      rw (keys prv_d, identity_key, shaken, validates m) refl

  validate_proof_lem :
      (l : Link) (prv prv_d key sb : Bytes) (now interface mtu : ℕ)
      → l.status ≡ pending
      → l.initiator ≡ true
      → l.private_key ≡ some prv
      → derive_key w prv (w.public_key prv_d) l.mode l.link_id ≡ some key
      → mtu % 0x200000 ≡ mtu
      → signalling_bytes mtu l.mode ≡ some sb
      → validate_proof w identity now interface true (lp_data w identity prv_d l.link_id sb) l ≡ (
        sends_rtt ∷ established ∷ [],
        had_outbound now (
            activate w identity now interface (some mtu) (record l {
              peer_pub_bytes = some (w.public_key prv_d);
              status = handshaking;
              derived_key = some key;
            })),
      )
  unfolding validate_proof
  validate_proof_lem l prv prv_d key sb now interface mtu first side own secret small bytes =
      let bs : Bytes = lp_data w identity prv_d l.link_id sb in
      let sig : Bytes =
        identity.sign (l.link_id ++ w.public_key prv_d ++ identity.sig_pub_bytes ++ sb) in
      let (size, cut, signature, peer) = lp_parts prv_d l.link_id sb in
      let (told_mtu, told_mode, whole) =
        mtu_behind-signalling_bytes lp_start mtu l.mode (sig ++ w.public_key prv_d) sb size bytes in
      let same_mode : (mode_from_lp_packet bs == l.mode) ≡ true = (==_iff _ _).1 told_mode in
      let long : (length bs == lp_start + link_mtu_size) ≡ true = (==_iff _ _).1 whole in
      let fits : (l.initiator && length (sig ++ w.public_key prv_d) == lp_start) ≡ true =
        ground (arith, side, size) in
      then_branch (is_pending l.status) _ _ (ap is_pending first)
      ∙ then_branch (mode_from_lp_packet bs == l.mode) _ _ same_mode
      ∙ then_branch (length bs == lp_start + link_mtu_size) _ _ long
      ∙ ap (λ (o : Option ℕ). read_signalled w identity now interface true o bs l)
          (told_mtu ∙ ap some small)
      ∙ ap (λ (o : Option Bytes). read_known w identity now interface true mtu o bs l) bytes
      ∙ ap (λ (t : Bytes). read_proof w identity now interface true (some mtu) sb t l) cut
      ∙ then_branch (l.initiator && length (sig ++ w.public_key prv_d) == lp_start) _ _ fits
      ∙ ap
          (λ (t : Bytes).
            check_proof w identity now interface true (some mtu) sb t
              (take sig_bytes (sig ++ w.public_key prv_d)) l)
          peer
      ∙ ap
          (λ (t : Bytes).
            check_proof w identity now interface true (some mtu) sb (w.public_key prv_d) t l)
          signature
      ∙ check_proof_lem l prv prv_d key sb now interface mtu first own secret

  -- An establishment from both sides. Where key exchange is symmetric, public keys have 32 bytes
  -- and are accepted, and the destination's signatures have 64 bytes and are valid: if the
  -- derivation of the key succeeds, the destination takes the request of an initiator with an
  -- enabled mode, the initiator takes its proof and the link becomes active there, and both sides
  -- have the same MTU and the same derived key.
  pub validate_proof-validate_request :
      (l : Link) (prv prv_d sig_pub sb key : Bytes) (mtu at now hops here there : ℕ)
      → l.status ≡ pending
      → l.initiator ≡ true
      → l.private_key ≡ some prv
      → length sig_pub ≡ 32
      → w.is_key sig_pub ≡ true
      → signalling_bytes mtu l.mode ≡ some sb
      → derive_key w prv_d (w.public_key prv) l.mode l.link_id ≡ some key
      → (proof : Bytes) × (ld : Link) × (validate_request w identity prv_d at hops there l.link_id
            (lr_data w prv sig_pub sb)
          ≡ some (proof, ld))
        × ((validate_proof w identity now here true proof l).1.status ≡ active)
        × ((validate_proof w identity now here true proof l).1.mtu ≡ ld.mtu)
        × ((validate_proof w identity now here true proof l).1.derived_key ≡ some key)
        × (ld.derived_key ≡ some key)
  validate_proof-validate_request l prv prv_d sig_pub sb key mtu at now hops here there first side
        own size good bytes secret =
      let (sb', ld, bytes', made, shaken, told, same_key) =
        validate_request_lem w identity key_length keys prv prv_d sig_pub sb l.link_id key mtu
          l.mode at hops there size good bytes secret in
      let m : ℕ = mtu_or_default (some (mtu % 0x200000)) in
      let taken =
        validate_proof_lem l prv prv_d key sb' now here m first side own
          (derive_key_agree prv prv_d l.mode l.link_id ∙ secret) (mtu_or_default_below mtu)
          bytes' in
      (
        lp_data w identity prv_d l.link_id sb',
        ld,
        made,
        ap (λ (t : List Effect × Link). t.1.status) taken,
        ap (λ (t : List Effect × Link). t.1.mtu) taken
            ∙ mtu_or_default_twice (some (mtu % 0x200000))
            ∙ sym told,
        ap (λ (t : List Effect × Link). t.1.derived_key) taken,
        same_key,
      )
