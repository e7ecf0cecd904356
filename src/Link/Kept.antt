-- ===== src/Link/Kept.antt =====
-- What the operations on a link that are not about its proof leave as it is.
use reticulum.Prelude.{
  ℕ, ◌≡◌, refl, ◌∙◌, Bytes, List, ◌==◌, Option, none, some, Bool, true, false, not, arith,
  if◌then◌else◌, ◌&&◌, ◌||◌,
}
use reticulum.Link.{Link, Effect, is_closed, had_keepalive}
use reticulum.Link.Keys.{World, encrypt, decrypt}
use reticulum.Packet.{data_packet, keepalive}
use reticulum.Link.Closing.{
  lr_rtt, link_close, close_by, set_rtt, note_rtt, is_keepalive, on_interface, note_inbound,
  link_closed, teardown, teardown_packet, rtt_packet, watchdog, Arrival, dispatch, receive,
}
use reticulum.Link.Events.{IsLive}

-- The sides, the id and the keys stay, and an initiator's link does not become live.
pub record Keeps (l l' : Link) : Type 0 where
  pub same_side : l'.initiator ≡ l.initiator
  pub same_id : l'.link_id ≡ l.link_id
  pub same_peer : l'.peer_pub_bytes ≡ l.peer_pub_bytes
  pub live : IsLive l'.status → l.initiator ≡ true → IsLive l.status

pub teardown-Keeps : (now : ℕ) (sent : Bool) (l : Link) → Keeps l (teardown now sent l).1
unfolding teardown link_closed
teardown-Keeps now sent l = record {
  same_side = ground arith;
  same_id = ground arith;
  same_peer = ground arith;
  live = ground arith;
}

pub watchdog-Keeps : (now : ℕ) (sent : Bool) (l : Link) → Keeps l (watchdog now sent l).1
unfolding watchdog link_closed
watchdog-Keeps now sent l = record {
  same_side = ground arith;
  same_id = ground arith;
  same_peer = ground arith;
  live = ground arith;
}

Keeps-refl : (l : Link) → Keeps l l
Keeps-refl l = record {
  same_side = refl;
  same_id = refl;
  same_peer = refl;
  live = λ live side. live;
}

Keeps-trans : (a b c : Link) → Keeps a b → Keeps b c → Keeps a c
Keeps-trans a b c h k = record {
  same_side = k.same_side ∙ h.same_side;
  same_id = k.same_id ∙ h.same_id;
  same_peer = k.same_peer ∙ h.same_peer;
  live = λ live side. h.live (k.live live (h.same_side ∙ side)) side;
}

either-Keeps :
    (b : Bool) (x y : List Effect × Link) (l : Link)
    → (b ≡ true → Keeps l x.1)
    → (b ≡ false → Keeps l y.1)
    → Keeps l (if b then x else y).1
either-Keeps true x y l hx hy = hx refl
either-Keeps false x y l hx hy = hy refl

note_inbound-Keeps : (now : ℕ) (p : Arrival) (l : Link) → Keeps l (note_inbound now p l)
note_inbound-Keeps now p l = record {
  same_side = ground arith;
  same_id = ground arith;
  same_peer = ground arith;
  live = ground arith;
}

answer-Keeps : (now : ℕ) (l : Link) → Keeps l (had_keepalive now l)
answer-Keeps now l = record {
  same_side = refl;
  same_id = refl;
  same_peer = refl;
  live = λ live side. live;
}

close_by-Keeps : (o : Option Bytes) (l : Link) → Keeps l (close_by o l).1
unfolding link_closed
close_by-Keeps o l = record {
  same_side = ground arith;
  same_id = ground arith;
  same_peer = ground arith;
  live = ground arith;
}

set_rtt-Keeps :
    (now : ℕ) (sent : Bool) (o : Option ℕ) (l : Link)
    → l.initiator ≡ false
    → Keeps l (set_rtt now sent o l).1
set_rtt-Keeps now sent none l h = teardown-Keeps now sent l
set_rtt-Keeps now sent (some rtt) l h = record {
  same_side = refl;
  same_id = refl;
  same_peer = refl;
  live = λ live side. absurd (ground (arith, h, side));
}

note_rtt-Keeps :
    (unpack : Bytes → Option ℕ) (now : ℕ) (sent : Bool) (o : Option Bytes) (l : Link)
    → l.initiator ≡ false
    → Keeps l (note_rtt unpack now sent o l).1
note_rtt-Keeps unpack now sent none l h = Keeps-refl l
note_rtt-Keeps unpack now sent (some bs) l h = set_rtt-Keeps now sent (unpack bs) l h

module _ (w : World) (unpack : Bytes → Option ℕ) where
  pub encrypt-Keeps : (iv plaintext : Bytes) (l : Link) → Keeps l (encrypt w iv plaintext l).1
  unfolding encrypt
  encrypt-Keeps iv plaintext l = record {
    same_side = ground arith;
    same_id = ground arith;
    same_peer = ground arith;
    live = ground arith;
  }

  decrypt-Keeps : (bs : Bytes) (l : Link) → Keeps l (decrypt w bs l).1
  unfolding decrypt
  decrypt-Keeps bs l = record {
    same_side = ground arith;
    same_id = ground arith;
    same_peer = ground arith;
    live = ground arith;
  }

  teardown_packet-Keeps : (bs : Bytes) (l : Link) → Keeps l (teardown_packet w bs l).1
  unfolding teardown_packet
  teardown_packet-Keeps bs l =
      Keeps-trans l (decrypt w bs l).1 _ (decrypt-Keeps bs l)
        (close_by-Keeps (decrypt w bs l).0 (decrypt w bs l).1)

  rtt_packet-Keeps :
      (now : ℕ) (sent : Bool) (bs : Bytes) (l : Link)
      → l.initiator ≡ false
      → Keeps l (rtt_packet w unpack now sent bs l).1
  unfolding rtt_packet
  rtt_packet-Keeps now sent bs l h =
      let opened = decrypt-Keeps bs l in
      Keeps-trans l (decrypt w bs l).1 _ opened (
        note_rtt-Keeps unpack now sent (decrypt w bs l).0 (decrypt w bs l).1 (opened.same_side ∙ h))

  dispatch-Keeps :
      (now : ℕ) (sent : Bool) (p : Arrival) (l : Link) → Keeps l (dispatch w unpack now sent p l).1
  unfolding dispatch
  dispatch-Keeps now sent p l =
      let same = Keeps-refl l in
      let kept = answer-Keeps now l in
      either-Keeps (not (p.packet_type == data_packet)) _ _ l (λ e. same)
        (λ e.
          either-Keeps (p.context == lr_rtt) _ _ l
            (λ e.
              either-Keeps l.initiator _ _ l (λ e. same)
                (λ e. rtt_packet-Keeps now sent p.payload l e))
            (λ e.
              either-Keeps (p.context == link_close) _ _ l (λ e. teardown_packet-Keeps p.payload l)
                (λ e.
                  either-Keeps (p.context == keepalive) _ _ l
                    (λ e.
                      either-Keeps (not l.initiator && is_keepalive p) _ _ l
                        (λ e. either-Keeps sent _ _ l (λ e. kept) (λ e. same)) (λ e. same))
                    (λ e. same))))

  pub receive-Keeps :
      (now : ℕ) (sent : Bool) (p : Arrival) (l : Link) → Keeps l (receive w unpack now sent p l).1
  unfolding receive
  receive-Keeps now sent p l =
      either-Keeps (is_closed l.status || (l.initiator && is_keepalive p)) _ _ l (λ e. Keeps-refl l)
        (λ e.
          either-Keeps (on_interface p l) _ _ l
            (λ e.
              Keeps-trans l (note_inbound now p l) _ (note_inbound-Keeps now p l)
                (dispatch-Keeps now sent p (note_inbound now p l)))
            (λ e. Keeps-refl l))
