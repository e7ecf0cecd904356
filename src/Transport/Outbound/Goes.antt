-- ===== src/Transport/Outbound/Goes.antt =====
-- On which interfaces Transport.outbound lets a packet go that has no path: link, attached interface
-- and the modes of the interfaces, as conditions, and that the tests decide them.
use reticulum.Prelude.{
  ℕ, ◌<◌, ◌≡◌, ◌≢◌, ◌⊎◌, inl, inr, refl, ap, ◌∙◌, Bool, Bool-cases, true, false, Option, none, some,
  Option-cases, length, ltb, ◌==◌, ==_iff, ◌&&◌, if◌then◌else◌, arith, Bytes,
}
use reticulum.Prelude.Decisions.{
  Decides, both_lem, convert_lem, answer_lem, not_lem, eq_lem, ltb_lem,
}
use reticulum.Packet.{announce}
use reticulum.Transport.Outbound.{Outgoing, Port}
use reticulum.Transport.Outbound.Broadcast.{
  mode_access_point, mode_roaming, mode_boundary, has_bitrate, from_allows, link_allows,
  attached_allows, cap_announce, allow_announce, should_transmit,
}

-- The interface that a link is attached to, while the link is not closed.
abbrev pub LinkFits : Option (Bool × ℕ) → ℕ → Type 0
LinkFits none n = Unit
LinkFits (some (closed, attached)) n = (closed ≡ false) × (n ≡ attached)

abbrev pub AttachedFits : Option ℕ → ℕ → Type 0
AttachedFits none n = Unit
AttachedFits (some attached) n = n ≡ attached

-- The destination is reached on an interface of a mode that takes part in no roaming.
abbrev pub RoamingFits : Option Port → Type 0
RoamingFits none = ⊥
RoamingFits (some from) = (from.mode ≢ mode_roaming) × (from.mode ≢ mode_boundary)

abbrev pub BoundaryFits : Option Port → Type 0
BoundaryFits none = ⊥
BoundaryFits (some from) = from.mode ≢ mode_roaming

abbrev pub HasBitrate : Option ℕ → Type 0
HasBitrate none = ⊥
HasBitrate (some bitrate) = bitrate ≢ 0

link_lem : (link : Option (Bool × ℕ)) (n : ℕ) → Decides (link_allows link n) (LinkFits link n)
link_lem none n = inl (refl, tt)
link_lem (some (true, attached)) n = inr (refl, λ (c, e). absurd (cc c))
link_lem (some (false, attached)) n =
    convert_lem _ (λ e. (refl, e)) (λ (c, e). e) (eq_lem n attached)

attached_lem :
    (attached : Option ℕ) (n : ℕ) → Decides (attached_allows attached n) (AttachedFits attached n)
attached_lem none n = inl (refl, tt)
attached_lem (some attached) n = eq_lem n attached

bitrate_lem : (bitrate : Option ℕ) → Decides (has_bitrate bitrate) (HasBitrate bitrate)
bitrate_lem none = inr (refl, λ e. e)
bitrate_lem (some bitrate) = not_lem _ (eq_lem bitrate 0)

roaming_lem : (from : Option Port) → Decides (from_allows from true) (RoamingFits from)
roaming_lem none = inr (refl, λ e. e)
roaming_lem (some from) =
    both_lem _ _ (not_lem _ (eq_lem from.mode mode_roaming))
      (not_lem _ (eq_lem from.mode mode_boundary))

boundary_lem : (from : Option Port) → Decides (from_allows from false) (BoundaryFits from)
boundary_lem none = inr (refl, λ e. e)
boundary_lem (some from) =
    convert_lem _ (λ (bad, u). bad) (λ bad. (bad, tt))
      (both_lem {Q = Unit} _ true (not_lem _ (eq_lem from.mode mode_roaming)) (inl (refl, tt)))

-- This node's destination, or one that is reached on a fitting interface.
own_lem :
    {P : Type 0}
    → (is_local b : Bool) (port : Port) (answer : Bool × Port)
    → answer ≡ (if is_local then (true, port) else (b, port))
    → Decides b P
    → Decides answer.0 ((is_local ≡ true) ⊎ P)
own_lem true b port answer h d = inl (ap (λ a. a.0) h, inl refl)
own_lem false b port answer h (inl (t, p)) = inl (ap (λ a. a.0) h ∙ t, inr p)
own_lem false b port answer h (inr (f, bad)) =
    inr (ap (λ a. a.0) h ∙ f, λ s. elim s [ inl l ↦ absurd (cc l) | inr p ↦ bad p ])

module _ (now : ℕ) (wait_time : Port → Bytes → ℕ) where
  -- Nothing waits on the interface, its announces are allowed again, and it has a bitrate.
  abbrev pub UnderCap : Port → Type 0
  UnderCap port =
      (length port.announce_queue ≡ 0)
      × ((port.announce_allowed_at < now) × HasBitrate port.bitrate)

  -- What the mode of an interface asks of an announce.
  abbrev pub ModeFits : Bool → Option Port → Outgoing → Port → Type 0
  ModeFits is_local from p port =
      ((port.mode ≡ mode_roaming) × ((is_local ≡ true) ⊎ RoamingFits from))
      ⊎ (((port.mode ≡ mode_boundary) × ((is_local ≡ true) ⊎ BoundaryFits from))
          ⊎ ((port.mode ≢ mode_access_point)
              × (port.mode ≢ mode_roaming)
              × (port.mode ≢ mode_boundary)
              × ((p.hops ≡ 0) ⊎ UnderCap port)))

  -- The conditions on an interface for a packet without a path; an announce that is attached to an
  -- interface goes out there whatever the mode.
  abbrev pub Goes : Bool → Option Port → Outgoing → Port → Type 0
  Goes is_local from p port =
      (port.is_out ≡ true)
      × LinkFits p.link port.number
      × AttachedFits p.attached_interface port.number
      × ((p.packet_type ≢ announce)
          ⊎ ((p.attached_interface ≢ none) ⊎ ModeFits is_local from p port))

  cap_lem :
      (p : Outgoing) (port : Port) → Decides (cap_announce now wait_time p port).0 (UnderCap port)
  unfolding cap_announce
  cap_lem p port =
      let test : Bool =
        (length port.announce_queue == 0)
        && (ltb port.announce_allowed_at now && has_bitrate port.bitrate) in
      let decided : Decides test (UnderCap port) =
        both_lem _ _ (eq_lem _ 0) (both_lem _ _ (ltb_lem _ now) (bitrate_lem port.bitrate)) in
      elim decided [
        | inl (t, fits) ↦ inl (rw (cap_announce, t) refl, fits)
        | inr (f, bad) ↦ inr (rw (cap_announce, f) refl, bad)
      ]

  other_mode_lem :
      (is_local : Bool) (from : Option Port) (p : Outgoing) (port : Port)
      → port.mode ≢ mode_access_point
      → port.mode ≢ mode_roaming
      → port.mode ≢ mode_boundary
      → Decides
          (if ltb 0 p.hops then cap_announce now wait_time p port else (true, port)).0
          (ModeFits is_local from p port)
  other_mode_lem is_local from p port a r b = elim (Bool-cases (ltb 0 p.hops)) [
    | inr own ↦ inl (rw own refl, inr (inr (a, r, b, inl (ground arith))))
    | inl others ↦ rw others (
        convert_lem _ (λ u. inr (inr (a, r, b, inr u)))
          (λ fits. elim fits [
            | inl (e, f) ↦ absurd (r e)
            | inr (inl (e, f)) ↦ absurd (b e)
            | inr (inr (a', r', b', inl zero)) ↦ absurd (ground arith)
            | inr (inr (a', r', b', inr u)) ↦ u
          ])
          (cap_lem p port))
  ]

  mode_lem :
      (is_local : Bool) (from : Option Port) (p : Outgoing) (port : Port)
      → Decides
          (allow_announce now wait_time is_local from p port).0
          (ModeFits is_local from p port)
  unfolding allow_announce
  mode_lem is_local from p port =
      let answer : Bool × Port = allow_announce now wait_time is_local from p port in
      elim (Bool-cases (port.mode == mode_access_point)) [
        | inl point ↦
            let e : port.mode ≡ mode_access_point = (==_iff port.mode mode_access_point).0 point in
            inr (
              rw (allow_announce, point) refl,
              λ fits. elim fits [
                | inl (r, f) ↦ absurd (omega (arith, e, r))
                | inr (inl (b, f)) ↦ absurd (omega (arith, e, b))
                | inr (inr (a, r, b, rest)) ↦ a e
              ],
            )
        | inr inside ↦ elim (Bool-cases (port.mode == mode_roaming)) [
          | inl roams ↦
              let e : port.mode ≡ mode_roaming = (==_iff port.mode mode_roaming).0 roams in
              convert_lem _ (λ f. inl (e, f))
                (λ fits. elim fits [
                  | inl (r, f) ↦ f
                  | inr (inl (b, f)) ↦ absurd (omega (arith, e, b))
                  | inr (inr (a, r, b, rest)) ↦ absurd (r e)
                ])
                (own_lem is_local (from_allows from true) port answer
                  (rw (allow_announce, inside, roams) refl) (roaming_lem from))
          | inr settled ↦ elim (Bool-cases (port.mode == mode_boundary)) [
            | inl bounds ↦
                let e : port.mode ≡ mode_boundary = (==_iff port.mode mode_boundary).0 bounds in
                convert_lem _ (λ f. inr (inl (e, f)))
                  (λ fits. elim fits [
                    | inl (r, f) ↦ absurd (omega (arith, e, r))
                    | inr (inl (b, f)) ↦ f
                    | inr (inr (a, r, b, rest)) ↦ absurd (b e)
                  ])
                  (own_lem is_local (from_allows from false) port answer
                    (rw (allow_announce, inside, settled, bounds) refl) (boundary_lem from))
            | inr inner ↦
                rw (allow_announce, inside, settled, inner)
                  (other_mode_lem is_local from p port (λ e. ground arith) (λ e. ground arith)
                    (λ e. ground arith))
          ]
        ]
      ]

  -- The test of an outgoing interface decides the conditions.
  pub should_transmit-Goes :
      (is_local : Bool) (from : Option Port) (p : Outgoing) (port : Port)
      → port.is_out ≡ true
      → Decides (should_transmit now wait_time is_local from p port).0 (Goes is_local from p port)
  unfolding should_transmit
  should_transmit-Goes is_local from p port out =
      let base =
        both_lem (link_allows p.link port.number) (attached_allows p.attached_interface port.number)
          (link_lem p.link port.number) (attached_lem p.attached_interface port.number) in
      elim (Option-cases p.attached_interface) [
        | inl free ↦ elim (Bool-cases (p.packet_type == announce)) [
          | inl is_announce ↦
              let e : p.packet_type ≡ announce = (==_iff p.packet_type announce).0 is_announce in
              answer_lem _ _
                (convert_lem _ (λ ((l, a), m). (out, l, a, inr (inr m)))
                  (λ (o, l, a, kind). (
                    (l, a),
                    elim kind [
                      | inl other ↦ absurd (other e)
                      | inr (inl attached) ↦ absurd (attached free)
                      | inr (inr m) ↦ m
                    ],
                  ))
                  (both_lem _ _ base (mode_lem is_local from p port)))
                (rw (should_transmit, free, is_announce) (rw free refl))
          | inr other ↦
              answer_lem _ _
                (convert_lem _ (λ (l, a). (out, l, a, inl (λ e. ground arith)))
                  (λ (o, l, a, kind). (l, a)) base)
                (rw (should_transmit, free, other) (rw free refl))
        ]
        | inr (attached, there) ↦
            answer_lem _ _
              (convert_lem _ (λ (l, a). (out, l, a, inr (inl (λ e. absurd (cc (e, there))))))
                (λ (o, l, a, kind). (l, a)) base)
              (rw (should_transmit, there) (rw there refl))
      ]
