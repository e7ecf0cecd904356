-- ===== src/Transport/Forward/ProofReturn.antt =====
-- The proofs that Transport.inbound carries back: a link request proof along the link table, any
-- other proof along the reverse table. The recalled identity of a destination is its key for
-- signatures and the validation with it.
use reticulum.Prelude.{
  ◌+◌, Bytes, length, [], ◌∷◌, ◌++◌, take, drop, Bool, true, false, ◌&&◌, Option, none, some, ◌==◌,
  if◌then◌else◌,
}
use reticulum.Link.{key_bytes, sig_bytes, link_mtu_size}
use reticulum.Link.Signalling.{lp_start, mtu_from_lp_packet, mode_from_lp_packet, signalling_bytes}
use reticulum.Transport.Paths.{find}
use reticulum.Transport.Forward.{Arrived, LinkEntry, Routes, repeated, send_on, without}

-- What `Identity.recall` gives: the second half of the public key and `validate`.
pub record Peer : Type 0 where
  pub sig_pub_bytes : Bytes
  pub validate : Bytes → Bytes → Bool

-- The signalling bytes that the signature covers, written again from what was read; `none` where
-- the proof has neither of the two lengths, or `signalling_bytes` raises.
unfoldable pub proof_signalling : Bytes → Option Bytes
proof_signalling payload =
    if length payload == lp_start + link_mtu_size
    then (elim (mtu_from_lp_packet payload) [
      | none ↦ none
      | some mtu ↦ signalling_bytes mtu (mode_from_lp_packet payload)
    ])
    else if length payload == lp_start
    then some []
    else none

-- `destination_hash+peer_pub_bytes+peer_sig_pub_bytes+signalling_bytes`
abbrev pub proof_text : Arrived → Peer → Bytes → Bytes
proof_text p peer signalling =
    p.destination_hash
    ++ (take key_bytes (drop sig_bytes p.payload) ++ (peer.sig_pub_bytes ++ signalling))

unfoldable pub is_valid_proof : Option Peer → Arrived → Bool
is_valid_proof none p = false
is_valid_proof (some peer) p = elim (proof_signalling p.payload) [
  | none ↦ false
  | some signalling ↦ peer.validate (take sig_bytes p.payload) (proof_text p peer signalling)
]

module _ (recall : Bytes → Option Peer) where
  -- Where the node carries proofs and the link table has the link.
  unfoldable pub transport_lr_proof : Arrived → LinkEntry → Routes → Routes
  unfolding is_valid_proof repeated
  transport_lr_proof p e r =
      if (p.hops == e.remaining_hops)
        && ((p.receiving_interface == e.next_hop_interface)
            && is_valid_proof (recall e.destination_hash) p)
      then (elim (repeated p) [
        | none ↦ r
        | some raw ↦
            (let entry = record e { validated = true } in
              send_on e.received_on raw
                (record r { link_table = (p.destination_hash, entry) ∷ r.link_table }))
      ])
      else r

-- `reverse_table.pop`, and the proof back to where the packet came from; `none` where the hop count
-- has no byte.
unfoldable pub transport_proof : Arrived → Routes → Option Routes
unfolding repeated without
transport_proof p r = elim (find p.destination_hash r.reverse_table) [
  | none ↦ some r
  | some e ↦
      (let popped = record r { reverse_table = without p.destination_hash r.reverse_table } in
        if p.receiving_interface == e.outbound_interface
        then (elim (repeated p) [
          | none ↦ none
          | some raw ↦ some (send_on e.received_on raw popped)
        ])
        else some popped)
]
