-- ===== src/Transport/Forward/Ways.antt =====
-- The ways of the packets of a link through a node that carries them.
use reticulum.Prelude.{
  ℕ, ◌<◌, ◌≡◌, ◌≢◌, ◌⊎◌, inl, inr, refl, Bytes, ◌∷◌, ◌++◌, Bool, Bool-cases, true, false, ◌&&◌,
  Option, none, some, ◌==◌, ==_iff, take, drop, lt→ltb, arith,
}
use reticulum.Packet.{announce, link_request, lr_proof}
use reticulum.Transport.Paths.{PathEntry, find, find-own}
use reticulum.Transport.Forward.{Arrived, Medium, LinkEntry, Routes, with_hops, repeated}
use reticulum.Transport.Forward.Path.{link_entry}
use reticulum.Transport.Forward.Link.{link_direction, repeat_on, after_repeat, link_transport}
use reticulum.Transport.Forward.Links.{after_request}

pub and_true : (a b : Bool) → (a && b) ≡ true → (a ≡ true) × (b ≡ true)
and_true true b h = (refl, h)
and_true false b h = absurd (cc h)

pub repeated_lem :
    (p : Arrived) → p.hops < 256 → repeated p ≡ some (take 1 p.raw ++ (p.hops ∷ drop 2 p.raw))
unfolding repeated with_hops
repeated_lem p h = rw (lt→ltb p.hops 256 h) refl

-- Which packets of a link are carried, and where to.
direction_lem :
    (e : LinkEntry) (interface hops : ℕ)
    → e.next_hop_interface ≢ e.received_on
    → (interface ≡ e.next_hop_interface
        → hops ≡ e.remaining_hops
        → link_direction e interface hops ≡ some e.received_on)
      × (interface ≡ e.received_on
          → hops ≡ e.hops
          → link_direction e interface hops ≡ some e.next_hop_interface)
      × (((interface == e.next_hop_interface) && (hops == e.remaining_hops)) ≡ false
          → ((interface == e.received_on) && (hops == e.hops)) ≡ false
          → link_direction e interface hops ≡ none)
unfolding link_direction
direction_lem e interface hops apart =
    (λ i h. ground arith, λ i h. ground arith, λ i h. ground arith)

-- A packet of a link: no announce, no link request and no proof of one.
abbrev pub OfLink : Arrived → Bytes → Type 0
OfLink q link_id =
    (q.destination_hash ≡ link_id)
    × ((q.packet_type == announce) ≡ false)
    × ((q.packet_type == link_request) ≡ false)
    × ((q.context == lr_proof) ≡ false)
    × (q.hops < 256)

-- It goes on once, on `interface`, with the hop count that it has here.
abbrev pub Repeated : Arrived → ℕ → Routes → Option Routes → Type 0
Repeated q interface r result =
    (s : Routes) × (result ≡ some s)
    × (s.sent ≡ (interface, take 1 q.raw ++ (q.hops ∷ drop 2 q.raw)) ∷ r.sent)
    × (s.tables ≡ r.tables)
    × (s.reverse_table ≡ r.reverse_table)

module _ (now : ℕ) where
  transport-direction :
      (q : Arrived) (e : LinkEntry) (link_id : Bytes) (r : Routes)
      → OfLink q link_id
      → find link_id r.link_table ≡ some e
      → ((interface : ℕ)
          → link_direction e q.receiving_interface q.hops ≡ some interface
          → Repeated q interface r (link_transport now q r))
        × (link_direction e q.receiving_interface q.hops ≡ none → link_transport now q r ≡ some r)
  unfolding link_transport repeat_on
  transport-direction q e link_id r (d, a, l, c, h) found =
      let raw : Bytes = take 1 q.raw ++ (q.hops ∷ drop 2 q.raw) in
      (
        λ interface way. (
          after_repeat now q e interface raw r,
          rw (link_transport, a, l, c, d, found, way, repeat_on, repeated_lem q h) (rw d refl),
          refl,
          refl,
          refl,
        ),
        λ way. rw (link_transport, a, l, c, d, found, way) refl,
      )

module _ (sha256 : Bytes → Bytes) (media : ℕ → Medium) (timeout : ℕ → ℕ → ℕ) (identity : Bytes)
    (now : ℕ) where
  -- Whether a packet of the link comes from the interface with that hop count.
  abbrev pub comes : Arrived → ℕ → ℕ → Bool
  comes q interface hops = (q.receiving_interface == interface) && (q.hops == hops)

  -- Once a link request went from one interface to another, the packets of its link go both ways:
  -- what comes from the next hop with the hop count of the path goes to where the request came
  -- from, and what comes from there with the request's hop count to the next hop, each once and
  -- with its own hop count. Any other packet of the link changes nothing.
  pub link_transport-after_request :
      (p : Arrived) (e : PathEntry) (new link_id : Bytes) (r : Routes) (q : Arrived) (later : ℕ)
      → e.interface ≢ p.receiving_interface
      → OfLink q link_id
      → (s : Routes) × (s ≡ after_request sha256 media timeout identity now p e new link_id r)
        × (((comes q e.interface e.hops ≡ true)
              × Repeated q p.receiving_interface s (link_transport later q s))
            ⊎ (((comes q p.receiving_interface p.hops ≡ true)
                  × Repeated q e.interface s (link_transport later q s))
                ⊎ ((comes q e.interface e.hops ≡ false)
                    × (comes q p.receiving_interface p.hops ≡ false)
                    × (link_transport later q s ≡ some s))))
  link_transport-after_request p e new link_id r q later apart of_link =
      let s : Routes = after_request sha256 media timeout identity now p e new link_id r in
      let entry : LinkEntry = link_entry sha256 media timeout identity now p e in
      let found : find link_id s.link_table ≡ some entry = find-own link_id entry r.link_table in
      let (goes, stays) = transport-direction later q entry link_id s of_link found in
      let (back, forth, neither) = direction_lem entry q.receiving_interface q.hops apart in
      (
        s,
        refl,
        elim (Bool-cases (comes q e.interface e.hops)) [
          | inl from_next ↦
              let (i, h) = and_true _ _ from_next in
              inl
                (from_next, goes p.receiving_interface (back ((==_iff _ _).0 i) ((==_iff _ _).0 h)))
          | inr not_next ↦ elim (Bool-cases (comes q p.receiving_interface p.hops)) [
            | inl from_origin ↦
                let (i, h) = and_true _ _ from_origin in
                inr (
                  inl (from_origin, goes e.interface (forth ((==_iff _ _).0 i) ((==_iff _ _).0 h))))
            | inr not_origin ↦ inr (inr (not_next, not_origin, stays (neither not_next not_origin)))
          ]
        ],
      )
