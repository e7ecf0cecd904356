-- ===== src/Transport/Outbound/Sent.antt =====
-- What a broadcast of Transport.outbound leaves in the state.
use reticulum.Prelude.{
  ℕ, ◌⊎◌, length-append, sym, ap, ◌∙◌, ◌+◌, ◌≡◌, inl, inr, refl, suc, Bytes, List, [], ◌∷◌, ◌++◌,
  length, Bool, true, false, Option, none, ltb, if◌then◌else◌, arith,
}
use mathlib.Core.List.{append_assoc}
use reticulum.Prelude.Decisions.{Decides, if-both}
use reticulum.Transport.Outbound.Goes.{Goes, should_transmit-Goes}
use reticulum.Transport.Paths.{next_hop_interface}
use reticulum.Transport.Filter.{add_packet_hash}
use reticulum.Transport.Outbound.{Outgoing, Port, Outbox, generates_receipt, transmit_on, path_of}
use reticulum.Transport.Outbound.Broadcast.{
  should_transmit, carry_out, broadcast_on, broadcast, port_of, send_broadcast, outbound,
}

-- The transmissions of a packet, latest first: one on each interface that meets the condition, in
-- their order, and none on any other.
abbrev pub Covers : (Port → Type 0) → Bytes → List Port → List (ℕ × Bytes) → Type 0
Covers Meets raw [] new = new ≡ []
Covers Meets raw (port ∷ ports) new =
    ((¬ Meets port) × Covers Meets raw ports new)
    ⊎ (Meets port
        × ((later : List (ℕ × Bytes)) × (new ≡ later ++ ((port.number, raw) ∷ []))
            × Covers Meets raw ports later))

-- What a broadcast does: the packet goes out on the interfaces that meet the condition, each
-- transmission leaves a receipt if the packet has any, and the answer says whether there are any.
abbrev pub Broadcasts : (Port → Type 0) → Outgoing → List Port → Outbox → Bool → Outbox → Type 0
Broadcasts Meets p ports s answer s' =
    (new : List (ℕ × Bytes)) × (s'.transmitted ≡ new ++ s.transmitted)
    × (answer ≡ ltb 0 (length new))
    × Covers Meets p.raw ports new
    × (s'.receipts ≡ (if generates_receipt p then length new + s.receipts else s.receipts))

count_none : (b : Bool) (n : ℕ) → n ≡ (if b then 0 + n else n)
count_none true n = omega arith
count_none false n = refl

count_more :
    (b : Bool) (m k n : ℕ)
    → k ≡ m + 1
    → (if b then m + (if b then suc n else n) else (if b then suc n else n))
      ≡ (if b then k + n else n)
count_more true m k n h = omega (arith, h)
count_more false m k n h = refl

-- One turn: the packet went out on the interface, or nothing has changed.
abbrev Turns : Type 0 → Outgoing → ℕ → Outbox → Bool → Outbox → Type 0
Turns Met p number s answer s' =
    (Met × (answer ≡ true) × (s' ≡ transmit_on p number p.raw s))
    ⊎ ((¬ Met) × (answer ≡ false) × (s' ≡ s))

then_lem :
    (Meets : Port → Type 0) (p : Outgoing) (port : Port) (ports : List Port) (s t u : Outbox)
    (a b : Bool)
    → Turns (Meets port) p port.number s a t
    → Broadcasts Meets p ports t b u
    → Broadcasts Meets p (port ∷ ports) s (if a then true else b) u
unfolding transmit_on
then_lem Meets p port ports s t u a b (inr (bad, f, same)) (new, sent, ans, covers, receipts) = (
  new,
  sent ∙ ap (λ o. new ++ o.transmitted) same,
  rw f ans,
  inl (bad, covers),
  receipts ∙ ap (λ o. if generates_receipt p then length new + o.receipts else o.receipts) same,
)
then_lem Meets p port ports s t u a b (inl (met, f, gone)) (new, sent, ans, covers, receipts) =
    let one : List (ℕ × Bytes) = (port.number, p.raw) ∷ [] in
    let count : length (new ++ one) ≡ length new + 1 = length-append new one in
    let made : Bool = generates_receipt p in
    (
      new ++ one,
      sent ∙ ap (λ o. new ++ o.transmitted) gone ∙ sym (append_assoc new one s.transmitted),
      rw f (ground (arith, count)),
      inr (met, (new, refl, covers)),
      receipts
          ∙ ap (λ o. if made then length new + o.receipts else o.receipts) gone
          ∙ count_more made (length new) (length (new ++ one)) s.receipts count,
    )

module _ (now : ℕ) (wait_time : Port → Bytes → ℕ) where
  carry_out-Turns :
      (Met : Type 0) (p : Outgoing) (n : ℕ) (s : Outbox) (decision : Bool × Port)
      → Decides decision.0 Met
      → Turns Met p n s
          (carry_out now wait_time p n s decision).0
          (carry_out now wait_time p n s decision).2
  unfolding carry_out
  carry_out-Turns Met p n s (true, changed) (inl (t, met)) = inl (met, refl, refl)
  carry_out-Turns Met p n s (true, changed) (inr (f, bad)) = absurd (cc f)
  carry_out-Turns Met p n s (false, changed) (inl (t, met)) = absurd (cc t)
  carry_out-Turns Met p n s (false, changed) (inr (f, bad)) = inr (bad, refl, refl)

  broadcast_on-Turns :
      (is_local : Bool) (from : Option Port) (p : Outgoing) (port : Port) (s : Outbox)
      → Turns
          (Goes now wait_time is_local from p port)
          p
          port.number
          s
          (broadcast_on now wait_time is_local from p port s).0
          (broadcast_on now wait_time is_local from p port s).2
  unfolding broadcast_on
  broadcast_on-Turns is_local from p port s =
      let Met : Type 0 = Goes now wait_time is_local from p port in
      let decision : Bool × Port = should_transmit now wait_time is_local from p port in
      let Turn : Bool × Port × Outbox → Type 0 = λ t. Turns Met p port.number s t.0 t.2 in
      if-both Turn port.is_out _ _
        (λ out.
          carry_out-Turns Met p port.number s decision
            (should_transmit-Goes now wait_time is_local from p port out))
        (λ kept. inr (λ goes. absurd (cc (goes.0, kept)), refl, refl))

  broadcast-Broadcasts :
      (is_local : Bool) (from : Option Port) (p : Outgoing) (ports : List Port) (s : Outbox)
      → Broadcasts
          (Goes now wait_time is_local from p)
          p
          ports
          s
          (broadcast now wait_time is_local from p ports s).0
          (broadcast now wait_time is_local from p ports s).2
  unfolding broadcast
  broadcast-Broadcasts is_local from p [] s = ([], refl, refl, refl, count_none _ s.receipts)
  broadcast-Broadcasts is_local from p (port ∷ ports) s =
      let here = broadcast_on now wait_time is_local from p port s in
      let later = broadcast now wait_time is_local from p ports here.2 in
      then_lem (Goes now wait_time is_local from p) p port ports s here.2 later.2 here.0 later.0
        (broadcast_on-Turns is_local from p port s)
        (broadcast-Broadcasts is_local from p ports here.2)

  -- Without a path, `outbound` transmits the packet as it is, once on each interface that meets the
  -- conditions, in their order, and on no other: the interface is outgoing; for a packet of a link it
  -- is the link's, and the link is not closed; for a packet with an attached interface it is that; for
  -- any other announce it is no access point, on a roaming or boundary interface the destination is
  -- this node's, or reached on an interface that is not roaming and, for a roaming one, not boundary
  -- either, and on any other interface the announce has no hops yet, or nothing waits there, announces
  -- are allowed again and there is a bitrate. Each transmission leaves a receipt if the packet has
  -- receipts; the answer is whether there was any, and only then its hash is stored.
  pub outbound-Broadcasts :
      (is_local : Bool) (p : Outgoing) (s : Outbox)
      → path_of p s ≡ none
      → Broadcasts
          (Goes now wait_time is_local
            (port_of (next_hop_interface p.destination_hash s.tables) s.ports)
            p)
          p
          s.ports
          s
          (outbound now wait_time is_local p s).0
          (outbound now wait_time is_local p s).1
        × ((outbound now wait_time is_local p s).1.hashes ≡ (
            if (outbound now wait_time is_local p s).0
            then add_packet_hash p.packet_hash s.hashes
            else s.hashes))
  unfolding outbound send_broadcast
  outbound-Broadcasts is_local p s h =
      let from : Option Port = port_of (next_hop_interface p.destination_hash s.tables) s.ports in
      rw (outbound, h) (broadcast-Broadcasts is_local from p s.ports s, refl)
