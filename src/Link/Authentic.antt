-- ===== src/Link/Authentic.antt =====
-- An initiator's link is active only by a proof that the destination's identity signed.
use reticulum.Prelude.{
  ℕ, ◌+◌, ◌≡◌, refl, sym, ◌∙◌, Bytes, List, [], ◌∷◌, ◌++◌, length, ◌==◌, Option, none, some, Bool,
  true, false, arith, if◌then◌else◌, ◌&&◌,
}
use reticulum.Link.{Link, Status, Effect, is_pending, link_mtu_size}
use reticulum.Link.Signalling.{signalling_bytes, mtu_from_lp_packet, mode_from_lp_packet, lp_start}
use reticulum.Link.Keys.{World, handshake}
use reticulum.Link.Establish.{
  Identity, check_proof, fail, read_proof, read_known, read_signalled, validate_proof,
}
use reticulum.Link.Events.{Event, proves, arrives, ticks, closes, seals, IsLive, step, run}
use reticulum.Link.Kept.{Keeps, teardown-Keeps, watchdog-Keeps, encrypt-Keeps, receive-Keeps}

module _ (w : World) (identity : Identity) where
  -- A signature of the destination over the link, the key that it gave and its signalling bytes.
  abbrev pub IsSigned : Link → Type 0
  IsSigned l =
      (peer : Bytes) × (sb : Bytes) × (signature : Bytes) × (l.peer_pub_bytes ≡ some peer)
      × (identity.validate signature (l.link_id ++ peer ++ identity.sig_pub_bytes ++ sb) ≡ true)

  pub record IsAuthentic (l : Link) : Type 0 where
    pub signed : IsLive l.status → l.initiator ≡ true → IsSigned l

  handshake_same :
      (l : Link)
      → ((handshake w l).1.initiator ≡ l.initiator)
        × ((handshake w l).1.link_id ≡ l.link_id)
        × ((handshake w l).1.peer_pub_bytes ≡ l.peer_pub_bytes)
  unfolding handshake
  handshake_same l = ground arith

  handshake-IsLive : (l : Link) → IsLive (handshake w l).1.status → IsLive l.status
  unfolding handshake
  handshake-IsLive l h = ground arith

  check_proof-IsAuthentic :
      (now interface : ℕ) (sent : Bool) (mtu : Option ℕ) (sb peer signature : Bytes) (l : Link)
      → (IsLive l.status → ⊥)
      → IsAuthentic (check_proof w identity now interface sent mtu sb peer signature l).1
  unfolding check_proof
  check_proof-IsAuthentic now interface sent mtu sb peer signature l dead =
      let same = handshake_same (record l { peer_pub_bytes = some peer }) in
      let none_live = handshake-IsLive (record l { peer_pub_bytes = some peer }) in
      record {
        signed = λ live side.
            (peer, sb, signature, ground (arith, same, none_live), ground (arith, same, none_live));
      }

  either-IsAuthentic :
      (b : Bool) (x y : List Effect × Link)
      → (b ≡ true → IsAuthentic x.1)
      → IsAuthentic y.1
      → IsAuthentic (if b then x else y).1
  either-IsAuthentic true x y hx hy = hx refl
  either-IsAuthentic false x y hx hy = hy

  read_proof-IsAuthentic :
      (now interface : ℕ) (sent : Bool) (mtu : Option ℕ) (sb bs : Bytes) (l : Link)
      → (IsLive l.status → ⊥)
      → IsAuthentic (read_proof w identity now interface sent mtu sb bs l).1
  read_proof-IsAuthentic now interface sent mtu sb bs l dead =
      either-IsAuthentic (l.initiator && length bs == lp_start) _ _
        (λ e. check_proof-IsAuthentic now interface sent mtu sb _ _ l dead)
        (record { signed = λ live. absurd (dead live) })

  pending_dead : (s : Status) → is_pending s ≡ true → IsLive s → ⊥
  pending_dead s h live = ground arith

  fail-IsAuthentic : (l : Link) → IsAuthentic (fail w identity l).1
  fail-IsAuthentic l = record { signed = λ live. absurd live }

  validate_proof-IsAuthentic :
      (now interface : ℕ) (sent : Bool) (bs : Bytes) (l : Link)
      → IsAuthentic l
      → IsAuthentic (validate_proof w identity now interface sent bs l).1
  unfolding validate_proof
  validate_proof-IsAuthentic now interface sent bs l h =
      either-IsAuthentic (is_pending l.status) _ _
        (λ first.
          either-IsAuthentic (mode_from_lp_packet bs == l.mode) _ _
            (λ same.
              either-IsAuthentic (length bs == lp_start + link_mtu_size) _ _
                (λ whole. signalled (pending_dead l.status first) (mtu_from_lp_packet bs))
                (read_proof-IsAuthentic now interface sent none [] bs l
                  (pending_dead l.status first)))
            (fail-IsAuthentic l))
        h
    where
      known :
          (IsLive l.status → ⊥)
          → (mtu : ℕ) (osb : Option Bytes)
          → IsAuthentic (read_known w identity now interface sent mtu osb bs l).1
      known dead mtu none = fail-IsAuthentic l
      known dead mtu (some sb) = read_proof-IsAuthentic now interface sent (some mtu) sb _ l dead

      signalled :
          (IsLive l.status → ⊥)
          → (omtu : Option ℕ)
          → IsAuthentic (read_signalled w identity now interface sent omtu bs l).1
      signalled dead none = fail-IsAuthentic l
      signalled dead (some mtu) = known dead mtu (signalling_bytes mtu l.mode)

  Keeps-IsAuthentic : (l l' : Link) → Keeps l l' → IsAuthentic l → IsAuthentic l'
  Keeps-IsAuthentic l l' k h = record {
    signed = λ live side.
        let (peer, sb, signature, given, valid) =
          h.signed (k.live live (sym k.same_side ∙ side)) (sym k.same_side ∙ side) in
        (peer, sb, signature, k.same_peer ∙ given, rw k.same_id valid);
  }

  module _ (unpack : Bytes → Option ℕ) where
    step-IsAuthentic :
        (e : Event) (l : Link) → IsAuthentic l → IsAuthentic (step w identity unpack e l)
    unfolding step
    step-IsAuthentic (proves now interface sent bs) l h =
        validate_proof-IsAuthentic now interface sent bs l h
    step-IsAuthentic (arrives now sent p) l h =
        Keeps-IsAuthentic l _ (receive-Keeps w unpack now sent p l) h
    step-IsAuthentic (ticks now sent) l h = Keeps-IsAuthentic l _ (watchdog-Keeps now sent l) h
    step-IsAuthentic (closes now sent) l h = Keeps-IsAuthentic l _ (teardown-Keeps now sent l) h
    step-IsAuthentic (seals iv plaintext) l h =
        Keeps-IsAuthentic l _ (encrypt-Keeps w unpack iv plaintext l) h

    -- Of a link of which it holds, as of every new one, it goes on to hold that an initiator's link is
    -- active or stale only where the destination's identity has signed the id
    -- of the link, the key that the link then has for its peer, and signalling bytes, whatever proofs,
    -- packets, timeouts and teardowns there were.
    pub run-IsAuthentic :
        (es : List Event) (l : Link) → IsAuthentic l → IsAuthentic (run w identity unpack es l)
    unfolding run
    run-IsAuthentic [] l h = h
    run-IsAuthentic (e ∷ es) l h =
        run-IsAuthentic es (step w identity unpack e l) (step-IsAuthentic e l h)
