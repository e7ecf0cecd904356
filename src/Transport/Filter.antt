-- ===== src/Transport/Filter.antt =====
-- Transport.packet_filter, Transport.add_packet_hash and the rotation of the seen hashes in
-- Transport.jobs.
use reticulum.Prelude.{
  ℕ, ◌/◌, ◌≡◌, ◌≢◌, inl, inr, refl, Bytes, bytes_eq, bytes_eq_refl, List, [], ◌∷◌, Bool, Bool-cases,
  ne→==, true, false, not, ◌&&◌, ◌||◌, Option, none, some, ltb, ◌==◌, arith, if◌then◌else◌,
}

-- Destination types, and the contexts that pass the filter whatever their hash.
abbrev pub single : ℕ
single = 0x00

abbrev pub group : ℕ
group = 0x01

abbrev pub plain : ℕ
plain = 0x02

abbrev pub announce : ℕ
announce = 0x01

-- RESOURCE, RESOURCE_REQ, RESOURCE_PRF, CACHE_REQUEST, CHANNEL and KEEPALIVE
abbrev pub is_exempt : ℕ → Bool
is_exempt context =
    context == 0xFA
    || (context == 0x03
        || (context == 0x05 || (context == 0x01 || (context == 0x08 || context == 0x0E))))

-- What the filter reads of a packet.
pub record Incoming : Type 0 where
  pub transport_id : Option Bytes
  pub packet_type : ℕ
  pub destination_type : ℕ
  pub context : ℕ
  pub hops : ℕ
  pub packet_hash : Bytes

pub record Hashes : Type 0 where
  pub current : List Bytes
  pub previous : List Bytes
  pub maxsize : ℕ
  -- `Transport.owner.is_connected_to_shared_instance`, and `Transport.identity.hash`
  pub is_client : Bool
  pub identity : Bytes

unfoldable pub contains : Bytes → List Bytes → Bool
contains h [] = false
contains h (x ∷ xs) = bytes_eq x h || contains h xs

-- A set: adding what is there changes nothing that a test can see.
unfoldable pub add_packet_hash : Bytes → Hashes → Hashes
add_packet_hash h s = if s.is_client then s else record s { current = h ∷ s.current }

abbrev pub for_other : Hashes → Incoming → Bool
for_other s p = elim p.transport_id [
  | none ↦ false
  | some t ↦ not (p.packet_type == announce) && not (bytes_eq t s.identity)
]

-- PLAIN and GROUP packets travel one hop and are never announced.
abbrev pub is_local_data : Incoming → Bool
is_local_data p = not (p.packet_type == announce) && not (ltb 1 p.hops)

unfoldable pub packet_filter : Hashes → Incoming → Bool
unfolding contains
packet_filter s p =
    if s.is_client
    then true
    else if for_other s p
    then false
    else if is_exempt p.context
    then true
    else if p.destination_type == plain
    then is_local_data p
    else if p.destination_type == group
    then is_local_data p
    else if not (contains p.packet_hash s.current) && not (contains p.packet_hash s.previous)
    then true
    else p.packet_type == announce && p.destination_type == single

-- Transport.jobs: a full generation becomes the previous one. The size of the set is an argument,
-- since the list may hold a hash more than once.
unfoldable pub rotate : ℕ → Hashes → Hashes
rotate size s =
    if ltb (s.maxsize / 2) size then record s { previous = s.current; current = [] } else s

contains_self : (h : Bytes) (hs : List Bytes) → contains h (h ∷ hs) ≡ true
unfolding contains
contains_self h hs = ground (arith, bytes_eq_refl h)

-- The packets that the seen hashes decide on.
pub record IsTracked (p : Incoming) : Type 0 where
  pub ordinary : is_exempt p.context ≡ false
  pub not_plain : p.destination_type ≢ plain
  pub not_group : p.destination_type ≢ group
  pub not_announce : p.packet_type ≢ announce

-- What is left of the filter for such a packet.
tracked_lem :
    (s : Hashes) (p : Incoming)
    → s.is_client ≡ false
    → IsTracked p
    → not (contains p.packet_hash s.current) && not (contains p.packet_hash s.previous) ≡ false
    → packet_filter s p ≡ false
unfolding packet_filter
tracked_lem s p c t seen = elim (Bool-cases (for_other s p)) [
  | inl other ↦ rw (c, other) refl
  | inr mine ↦
      rw
        (
          c,
          mine,
          t.ordinary,
          ne→== _ _ t.not_plain,
          ne→== _ _ t.not_group,
          seen,
          ne→== _ _ t.not_announce,
        )
        refl
]

-- Once a packet's hash has been added, the same packet is dropped: at once, and also after one
-- rotation of the seen hashes.
pub packet_filter-add_packet_hash :
    (s : Hashes) (p : Incoming) (size : ℕ)
    → s.is_client ≡ false
    → IsTracked p
    → (packet_filter (add_packet_hash p.packet_hash s) p ≡ false)
      × (packet_filter (rotate size (add_packet_hash p.packet_hash s)) p ≡ false)
unfolding add_packet_hash rotate contains
packet_filter-add_packet_hash s p size c t =
    let h : Bytes = p.packet_hash in
    (
      tracked_lem (add_packet_hash h s) p (ground arith) t
          (rw c (rw (contains_self h s.current) refl)),
      elim (Bool-cases (ltb (s.maxsize / 2) size)) [
        | inl full ↦
            tracked_lem (rotate size (add_packet_hash h s)) p (ground arith) t
              (rw c (rw full (rw (contains_self h s.current) refl)))
        | inr room ↦
            tracked_lem (rotate size (add_packet_hash h s)) p (ground arith) t
              (rw c (rw room (rw (contains_self h s.current) refl)))
      ],
    )
