-- ===== src/Identity/Announcing.antt =====
-- Destination.announce: the announce data with its random hash, ratchet and signature, and what is kept
-- of it for path responses.
use reticulum.Prelude.{
  ℕ, ◌+◌, ◌/◌, ◌%◌, Bytes, bytes_eq, length, take, List, [], ◌∷◌, ◌++◌, Bool, true, false, not,
  Option, none, some, ltb, ◌==◌, if◌then◌else◌,
}
use reticulum.Prelude.Results.{Result, ok, err, Exec, pure, ◌>>=◌}
use reticulum.Packet.{announce}
use reticulum.Identity.{Curves}
use reticulum.Identity.Keys.{get_public_key, sign, IdentityError}
use reticulum.Identity.Known.{remember_ratchet}
use reticulum.Identity.Announce.{AnnouncePacket}
use reticulum.Identity.Destination.{
  single, inward, pr_tag_window, Destination, Node, Moment, AnnounceError, rotate_ratchets, not_set,
  fixed, computed, not_single, not_inward, no_ratchet, time_overflow, unsigned,
}

-- `int(time.time()).to_bytes(5, "big")` behind five random bytes.
unfoldable pub announce_random_hash : Moment → Option Bytes
announce_random_hash m =
    let now = m.now in
    if ltb now 0x10000000000
    then some (
        take 5 m.random_hash
        ++ (now / 0x100000000
            ∷ now / 0x1000000 % 0x100
            ∷ now / 0x10000 % 0x100
            ∷ now / 0x100 % 0x100
            ∷ now % 0x100
            ∷ []))
    else none

unfoldable pub own_app_data : Destination → Option Bytes → Option Bytes
own_app_data d (some bytes) = some bytes
own_app_data d none = elim d.default_app_data [
  | not_set ↦ none
  | fixed bytes ↦ some bytes
  | computed returned ↦ returned
]

abbrev pub bytes_or_empty : Option Bytes → Bytes
bytes_or_empty none = []
bytes_or_empty (some bytes) = bytes

abbrev pub same_tag : Option Bytes → Option Bytes → Bool
same_tag none none = true
same_tag none (some t) = false
same_tag (some s) none = false
same_tag (some s) (some t) = bytes_eq s t

unfoldable pub find_response : Option Bytes → List (Option Bytes × ℕ × Bytes) → Option Bytes
find_response tag [] = none
find_response tag ((other, time, payload) ∷ responses) =
    if same_tag other tag then some payload else find_response tag responses

-- Only a tag that is not None finds announce data that was kept.
unfoldable pub cached_response : Option Bytes → Destination → Option Bytes
unfolding find_response
cached_response none d = none
cached_response (some t) d = find_response (some t) d.path_responses

unfoldable pub drop_stale : ℕ → List (Option Bytes × ℕ × Bytes) → List (Option Bytes × ℕ × Bytes)
drop_stale now [] = []
drop_stale now ((tag, time, payload) ∷ responses) =
    let rest = drop_stale now responses in
    if ltb (time + pr_tag_window) now then rest else (tag, time, payload) ∷ rest

module _ (x : Curves) (m : Moment) where
  -- What follows the rotation: the public bytes of `ratchets[0]`, remembered for the destination
  -- itself.
  unfoldable pub ratchet_after :
      Node → Result AnnounceError (Unit {0}) × Destination → Result AnnounceError Bytes × Node
  ratchet_after n (err e, d) = (err e, record n { destination = d })
  ratchet_after n (ok done, d) = elim d.ratchets [
    | none ↦ (err no_ratchet, record n { destination = d })
    | some current ↦ elim current [
      | [] ↦ (err no_ratchet, record n { destination = d })
      | first ∷ others ↦ (
        ok (x.x_public first),
        record n { destination = d; known = remember_ratchet d.hash (x.x_public first) n.known },
      )
    ]
  ]

  unfoldable pub announce_ratchet : Exec AnnounceError Node Bytes
  unfolding rotate_ratchets ratchet_after
  announce_ratchet n = elim n.destination.ratchets [
    | none ↦ (ok [], n)
    | some ratchets ↦ ratchet_after n (rotate_ratchets m n.destination)
  ]

  -- `signed_data` and `announce_data`
  abbrev pub text_to_sign : Destination → Bytes → Bytes → Bytes → Bytes
  text_to_sign d random_hash ratchet app_data =
      d.hash
      ++ (get_public_key d.identity ++ (d.name_hash ++ (random_hash ++ (ratchet ++ app_data))))

  abbrev pub announce_data : Destination → Bytes → Bytes → Bytes → Bytes → Bytes
  announce_data d random_hash ratchet signature app_data =
      get_public_key d.identity
      ++ (d.name_hash ++ (random_hash ++ (ratchet ++ (signature ++ app_data))))

  -- With the signature, or the exception of signing.
  unfoldable pub signed_announce :
      Option Bytes
      → Bytes
      → Bytes
      → Bytes
      → Node
      → Result IdentityError Bytes
      → Result AnnounceError Bytes × Node
  signed_announce tag sent random_hash ratchet n (err e) = (err unsigned, n)
  signed_announce tag sent random_hash ratchet n (ok signature) =
      let payload = announce_data n.destination random_hash ratchet signature sent in
      (
        ok payload,
        record n {
          destination = record n.destination {
            path_responses = (tag, m.now, payload) ∷ n.destination.path_responses;
          };
        },
      )

  unfoldable pub new_announce :
      Option Bytes → Option Bytes → Bytes → Bytes → Exec AnnounceError Node Bytes
  unfolding signed_announce
  new_announce tag app_data random_hash ratchet n =
      let sent = bytes_or_empty (own_app_data n.destination app_data) in
      signed_announce tag sent random_hash ratchet n
        (sign x n.destination.identity (text_to_sign n.destination random_hash ratchet sent))

  -- The ratchet, empty where there is none or the data was kept, and the data.
  unfoldable pub announce_payload :
      Bool → Option Bytes → Option Bytes → Exec AnnounceError Node (Bytes × Bytes)
  unfolding announce_random_hash announce_ratchet new_announce cached_response
  announce_payload path_response tag app_data n =
      elim (if path_response then cached_response tag n.destination else none) [
        | some payload ↦ (ok ([], payload), n)
        | none ↦ elim (announce_random_hash m) [
          | none ↦ (err time_overflow, n)
          | some random_hash ↦
              (announce_ratchet >>= λ ratchet.
              new_announce tag app_data random_hash ratchet >>= λ payload. pure (ratchet, payload))
                n
        ]
      ]

  -- `packet_hash` is what the packet's `get_hash` gives once it is packed. Context NONE and
  -- PATH_RESPONSE differ only there.
  unfoldable pub announce_packet : Bytes → Destination → Bytes → Bytes → AnnouncePacket
  announce_packet packet_hash d ratchet payload = record {
    packet_type = announce;
    destination_hash = d.hash;
    payload = payload;
    context_flag = if 0 == length ratchet then 0 else 1;
    packet_hash = packet_hash;
  }

  unfoldable pub announce_destination :
      Bytes → Bool → Option Bytes → Option Bytes → Exec AnnounceError Node AnnouncePacket
  unfolding announce_payload announce_packet
  announce_destination packet_hash path_response tag app_data n =
      let d = n.destination in
      if not (d.kind == single)
      then (err not_single, n)
      else if not (d.direction == inward)
      then (err not_inward, n)
      else (let live = record n {
        destination = record d { path_responses = drop_stale m.now d.path_responses };
      } in
          (announce_payload path_response tag app_data >>= λ made.
          pure (announce_packet packet_hash d made.0 made.1))
            live)
