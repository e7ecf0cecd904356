-- ===== src/Link/Establish.antt =====
-- The establishment of a link: Link.validate_request and prove at the destination, validate_proof at
-- the initiator, and rtt_packet at the destination.
use reticulum.Prelude.{
  ℕ, ◌+◌, ◌-◌, ◌*◌, Bytes, List, [], ◌∷◌, ◌++◌, length, take, drop, Option, none, some, Bool, true,
  false, ◌&&◌, ◌||◌, ◌==◌, max, if◌then◌else◌,
}
use reticulum.Link.{
  Link, pending, active, closed, Effect, sends_rtt, established, is_pending, is_handshaking,
  had_outbound, update_keepalive, default_mtu, key_bytes, sig_bytes, link_mtu_size,
}
use reticulum.Link.Signalling.{
  signalling_bytes, mtu_from_lr_packet, mode_from_lr_packet, mtu_from_lp_packet,
  mode_from_lp_packet, lr_start, lp_start,
}
use reticulum.Link.Keys.{World, handshake}

-- `mtu or Reticulum.MTU`
abbrev pub mtu_or_default : Option ℕ → ℕ
mtu_or_default none = default_mtu
mtu_or_default (some mtu) = if mtu == 0 then default_mtu else mtu

-- The identity of the destination: its signatures, their validation, and the second half of its public
-- key.
pub record Identity : Type 0 where
  pub sign : Bytes → Bytes
  pub validate : Bytes → Bytes → Bool
  pub sig_pub_bytes : Bytes

module _ (w : World) (identity : Identity) where
  -- The content of the proof packet.
  unfoldable pub prove : Bytes → Link → Option Bytes
  unfolding signalling_bytes
  prove prv l = elim (signalling_bytes l.mtu l.mode) [
    | none ↦ none
    | some sb ↦ some (
        identity.sign (l.link_id ++ w.public_key prv ++ identity.sig_pub_bytes ++ sb)
        ++ w.public_key prv
        ++ sb)
  ]

  -- The link of a request, before its handshake.
  abbrev pub requested : Bytes → ℕ → ℕ → ℕ → Bytes → Bytes → Link
  requested prv now hops interface link_id bs = record {
    status = pending;
    initiator = false;
    mode = mode_from_lr_packet bs;
    mtu =
        if length bs == lr_start + link_mtu_size
        then mtu_or_default (mtu_from_lr_packet bs)
        else default_mtu;
    link_id = link_id;
    private_key = some prv;
    peer_pub_bytes = some (take key_bytes bs);
    derived_key = none;
    token = none;
    rtt = none;
    request_time = now;
    establishment_timeout = 6000 * max 1 hops + 360000;
    activated_at = none;
    last_inbound = now;
    last_outbound = 0;
    last_keepalive = 0;
    last_proof = 0;
    last_data = 0;
    keepalive = 360000;
    stale_time = 720000;
    attached_interface = some interface;
    teardown_reason = none;
  }

  -- The proof, after a handshake that returns.
  abbrev pub prove_after : Bytes → ℕ → Bool × Link → Option (Bytes × Link)
  prove_after prv now (false, l) = none
  prove_after prv now (true, l) = elim (prove prv l) [
    | none ↦ none
    | some proof ↦ some (proof, had_outbound now l)
  ]

  unfoldable pub answer : Bytes → ℕ → Link → Option (Bytes × Link)
  unfolding handshake prove
  answer prv now l = prove_after prv now (handshake w l)

  -- The proof that is sent and the new link, or none where the request is refused. `prv` is the new
  -- private key, `link_id` what link_id_from_lr_packet gives.
  unfoldable pub validate_request : Bytes → ℕ → ℕ → ℕ → Bytes → Bytes → Option (Bytes × Link)
  unfolding answer
  validate_request prv now hops interface link_id bs =
      if (length bs == lr_start || length bs == lr_start + link_mtu_size)
        && (w.is_key (take key_bytes bs) && w.is_key (take key_bytes (drop key_bytes bs)))
      then answer prv now (requested prv now hops interface link_id bs)
      else none

  abbrev pub fail : Link → List Effect × Link
  fail l = ([], record l { status = closed })

  abbrev pub activate : ℕ → ℕ → Option ℕ → Link → Link
  activate now interface confirmed_mtu l = update_keepalive (now - l.request_time) (record l {
    rtt = some (now - l.request_time);
    attached_interface = some interface;
    mtu = mtu_or_default confirmed_mtu;
    status = active;
    activated_at = some now;
    last_proof = now;
  })

  -- With a valid signature. `sent` is whether the rtt packet is sent without an exception.
  abbrev pub accept_proof : ℕ → ℕ → Bool → Option ℕ → Link → List Effect × Link
  accept_proof now interface sent confirmed_mtu l =
      if is_handshaking l.status
      then if sent
        then (
          sends_rtt ∷ established ∷ [],
          had_outbound now (activate now interface confirmed_mtu l),
        )
        else fail (activate now interface confirmed_mtu l)
      else fail l

  -- From load_peer on, with the key of the peer.
  unfoldable pub check_proof :
      ℕ → ℕ → Bool → Option ℕ → Bytes → Bytes → Bytes → Link → List Effect × Link
  unfolding handshake
  check_proof now interface sent confirmed_mtu sb peer signature l =
      if w.is_key peer && w.is_key identity.sig_pub_bytes
      then (let (returns, l') = handshake w (record l { peer_pub_bytes = some peer }) in
          if returns
          then if identity.validate signature (l.link_id ++ peer ++ identity.sig_pub_bytes ++ sb)
            then accept_proof now interface sent confirmed_mtu l'
            else ([], l')
          else fail l')
      else fail (record l { peer_pub_bytes = some peer })

  -- Of a proof without its signalling bytes.
  abbrev pub read_proof : ℕ → ℕ → Bool → Option ℕ → Bytes → Bytes → Link → List Effect × Link
  read_proof now interface sent confirmed_mtu sb bs l =
      if l.initiator && length bs == lp_start
      then check_proof now interface sent confirmed_mtu sb (take key_bytes (drop sig_bytes bs))
          (take sig_bytes bs) l
      else ([], l)

  -- Of a proof with them: the MTU that it confirms, and the bytes for that MTU, which may raise.
  abbrev pub read_known : ℕ → ℕ → Bool → ℕ → Option Bytes → Bytes → Link → List Effect × Link
  read_known now interface sent mtu none bs l = fail l
  read_known now interface sent mtu (some sb) bs l =
      read_proof now interface sent (some mtu) sb (take lp_start bs) l

  abbrev pub read_signalled : ℕ → ℕ → Bool → Option ℕ → Bytes → Link → List Effect × Link
  read_signalled now interface sent none bs l = fail l
  read_signalled now interface sent (some mtu) bs l =
      read_known now interface sent mtu (signalling_bytes mtu l.mode) bs l

  unfoldable pub validate_proof : ℕ → ℕ → Bool → Bytes → Link → List Effect × Link
  unfolding check_proof signalling_bytes
  validate_proof now interface sent bs l =
      if is_pending l.status
      then if mode_from_lp_packet bs == l.mode
        then if length bs == lp_start + link_mtu_size
          then read_signalled now interface sent (mtu_from_lp_packet bs) bs l
          else read_proof now interface sent none [] bs l
        else fail l
      else ([], l)
