-- ===== src/Transport/Forward/Returned.antt =====
-- Proofs go back along the way that the proven packet came.
use reticulum.Prelude.{
  ℕ, ◌<◌, ◌≡◌, ◌≢◌, ◌⊎◌, inl, inr, refl, ap, ◌∙◌, Bytes, List, [], ◌∷◌, ◌++◌, Bool, Bool-cases,
  Option-cases, true, false, ◌&&◌, Option, none, some, bytes_eq, ltb, ◌==◌, ==_iff, take, drop,
  ltb→lt,
}
use reticulum.Packet.Hash.{get_truncated_hash}
use reticulum.Link.{sig_bytes}
use reticulum.Transport.Paths.{PathEntry, find, find-own}
use reticulum.Transport.Forward.{
  Arrived, Medium, LinkEntry, ReverseEntry, Routes, with_hops, repeated, send_on, without,
}
use reticulum.Transport.Forward.Path.{after_other, forward_other}
use reticulum.Transport.Forward.ProofReturn.{
  Peer, proof_signalling, proof_text, is_valid_proof, transport_lr_proof, transport_proof,
}
use reticulum.Transport.Forward.Ways.{and_true, repeated_lem}

find-without : {V : Type 0} (k : Bytes) (d : List (Bytes × V)) → find k (without k d) ≡ none
unfolding find without
find-without k [] = refl
find-without k ((j, v) ∷ d) = elim (Bool-cases (bytes_eq j k)) [
  | inl same ↦ rw same (find-without k d)
  | inr other ↦ rw (other, other) (find-without k d)
]

module _ (sha256 : Bytes → Bytes) (media : ℕ → Medium) (timeout : ℕ → ℕ → ℕ) (identity : Bytes)
    (now : ℕ) where
  -- A proof for a packet that was carried on goes back to the interface that the packet came in
  -- on, where it comes from the interface the packet left on, and nowhere else; whichever it came
  -- from, a second proof for the packet is not carried.
  pub transport_proof-forward_other :
      (p : Arrived) (e : PathEntry) (raw : Bytes) (r : Routes) (q : Arrived)
      → get_truncated_hash sha256 p.header_type p.raw ≡ some q.destination_hash
      → q.hops < 256
      → (s t : Routes) × (forward_other sha256 media timeout identity now p e raw r ≡ some s)
        × (transport_proof q s ≡ some t)
        × (((q.receiving_interface ≡ e.interface)
              × (t.sent
                  ≡ (p.receiving_interface, take 1 q.raw ++ (q.hops ∷ drop 2 q.raw)) ∷ s.sent))
            ⊎ ((q.receiving_interface ≢ e.interface) × (t.sent ≡ s.sent)))
        × ((again : Arrived)
            → transport_proof (record again { destination_hash = q.destination_hash }) t ≡ some t)
  unfolding transport_proof forward_other
  transport_proof-forward_other p e raw r q d h =
      let s : Routes = after_other sha256 media timeout identity now p e raw q.destination_hash r in
      let popped : Routes = record s {
        reverse_table = without q.destination_hash s.reverse_table;
      } in
      let entry : ReverseEntry = record {
        received_on = p.receiving_interface;
        outbound_interface = e.interface;
        timestamp = now;
      } in
      let found : find q.destination_hash s.reverse_table ≡ some entry =
        find-own q.destination_hash entry r.reverse_table in
      let gone : find q.destination_hash (without q.destination_hash s.reverse_table) ≡ none =
        find-without q.destination_hash s.reverse_table in
      elim (Bool-cases (q.receiving_interface == e.interface)) [
        | inl same ↦ (
          s,
          send_on p.receiving_interface (take 1 q.raw ++ (q.hops ∷ drop 2 q.raw)) popped,
          rw (forward_other, d) refl,
          rw (transport_proof, found, same, repeated_lem q h) refl,
          inl ((==_iff _ _).0 same, refl),
          λ again. rw (transport_proof, gone) refl,
        )
        | inr other ↦ (
          s,
          popped,
          rw (forward_other, d) refl,
          rw (transport_proof, found, other) refl,
          inr (λ i. absurd (cc (other, (==_iff _ _).1 i)), refl),
          λ again. rw (transport_proof, gone) refl,
        )
      ]

is_valid_proof_lem :
    (o : Option Peer) (p : Arrived)
    → is_valid_proof o p ≡ true
    → (peer : Peer) × (signalling : Bytes) × (o ≡ some peer)
      × (proof_signalling p.payload ≡ some signalling)
      × (peer.validate (take sig_bytes p.payload) (proof_text p peer signalling) ≡ true)
unfolding is_valid_proof
is_valid_proof_lem none p h = absurd (cc h)
is_valid_proof_lem (some peer) p h = elim (Option-cases (proof_signalling p.payload)) [
  | inl stuck ↦ let invalid : false ≡ true = rw (is_valid_proof, stuck) at h in absurd (cc invalid)
  | inr (signalling, made) ↦ (peer, signalling, refl, made, rw (is_valid_proof, made) at h)
]

module _ (recall : Bytes → Option Peer) where
  -- A link request proof is carried back only with the hop count of the path, from the interface
  -- that the request left on, and signed by the destination that the request was for: then it goes
  -- to where the request came from and the link is validated. Else nothing changes.
  pub transport_lr_proof-valid :
      (p : Arrived) (e : LinkEntry) (r : Routes)
      → ((transport_lr_proof recall p e r ≡ r)
          × ((((p.hops == e.remaining_hops)
                  && ((p.receiving_interface == e.next_hop_interface)
                      && is_valid_proof (recall e.destination_hash) p))
                && ltb p.hops 256)
              ≡ false))
        ⊎ ((peer : Peer) × (signalling : Bytes) × (p.hops ≡ e.remaining_hops)
            × (p.receiving_interface ≡ e.next_hop_interface)
            × (recall e.destination_hash ≡ some peer)
            × (proof_signalling p.payload ≡ some signalling)
            × (peer.validate (take sig_bytes p.payload) (proof_text p peer signalling) ≡ true)
            × ((transport_lr_proof recall p e r).sent
                ≡ (e.received_on, take 1 p.raw ++ (p.hops ∷ drop 2 p.raw)) ∷ r.sent)
            × (find p.destination_hash (transport_lr_proof recall p e r).link_table
                ≡ some (record e { validated = true })))
  unfolding transport_lr_proof repeated with_hops
  transport_lr_proof-valid p e r =
      let valid : Bool = is_valid_proof (recall e.destination_hash) p in
      let expected : Bool = (p.receiving_interface == e.next_hop_interface) && valid in
      elim (Bool-cases ((p.hops == e.remaining_hops) && expected)) [
        | inr refused ↦ inl (rw (transport_lr_proof, refused) refl, rw refused refl)
        | inl accepted ↦
            let (hops, rest) = and_true _ _ accepted in
            let (interface, good) = and_true _ _ rest in
            let (peer, signalling, known, made, signed) = is_valid_proof_lem _ p good in
            elim (Bool-cases (ltb p.hops 256)) [
              | inr long ↦
                  inl (
                    rw (transport_lr_proof, accepted, repeated, long) refl,
                    rw (accepted, long) refl,
                  )
              | inl fits ↦
                  let raw : Bytes = take 1 p.raw ++ (p.hops ∷ drop 2 p.raw) in
                  let entry : LinkEntry = record e { validated = true } in
                  let carried : transport_lr_proof recall p e r
                      ≡ send_on e.received_on raw
                          (record r { link_table = (p.destination_hash, entry) ∷ r.link_table }) =
                    rw (transport_lr_proof, accepted, repeated_lem p (ltb→lt _ _ fits)) refl in
                  inr (
                    peer,
                    signalling,
                    (==_iff _ _).0 hops,
                    (==_iff _ _).0 interface,
                    known,
                    made,
                    signed,
                    ap (λ s. s.sent) carried,
                    ap (λ s. find p.destination_hash s.link_table) carried
                        ∙ find-own p.destination_hash entry r.link_table,
                  )
            ]
      ]
