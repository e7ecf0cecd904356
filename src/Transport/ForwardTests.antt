-- ===== src/Transport/ForwardTests.antt =====
-- Access codes, forwarded packets, links and proofs in transport at concrete values.
use reticulum.Prelude.{
  ℕ, zero, suc, ◌≡◌, ◌≢◌, ◌⊎◌, ◌<◌, refl, Bytes, length, take, drop, replicate, [], ◌∷◌, ◌++◌, true,
  false, Option, none, some, arith, ◌==◌, ◌&&◌, ltb,
}
use reticulum.Crypto.Hkdf.{AreBytes, hkdf, blocks}
use reticulum.Packet.{header_2}
use reticulum.Packet.Flags.{unpack_flags}
use reticulum.Packet.Hash.{get_hashable_part, full_hash, truncated_hash, get_truncated_hash}
use reticulum.Link.{sig_bytes}
use reticulum.Link.Signalling.{mtu_behind, mode_behind, signalling_bytes}
use reticulum.Transport.Paths.{PathEntry, find}
use reticulum.Transport.Ifac.Unmask.{each_byte, inbound_byte}
use reticulum.Transport.Ifac.Codes.{
  Access, transmit, admit, unmask, check_ifac, mask_for, last_bytes, admit-signed,
}
use reticulum.Transport.Ifac.RoundTrip.{admit-transmit}
use reticulum.Transport.Forward.{Arrived, Medium, LinkEntry, Routes, with_hops}
use reticulum.Transport.Forward.Path.{
  next_raw, forward, forward_other, forward_request, clamp_request, clamp_mtu, clamped,
  link_id_from_lr_packet, link_entry,
}
use reticulum.Transport.Forward.Request.{InTransport, next_raw-hash}
use reticulum.Transport.Forward.Links.{after_request, Received, forward-link_id}
use reticulum.Transport.Forward.Link.{link_transport}
use reticulum.Transport.Forward.Ways.{Repeated, comes, link_transport-after_request}
use reticulum.Transport.Forward.Returned.{transport_proof-forward_other, transport_lr_proof-valid}
use reticulum.Transport.Forward.ProofReturn.{
  Peer, proof_signalling, proof_text, is_valid_proof, transport_proof, transport_lr_proof,
}

abbrev mac : Bytes → Bytes → Bytes
mac key bs = replicate 32 7

mac-AreBytes : (n : ℕ) → AreBytes (replicate n 7)
mac-AreBytes zero = tt
mac-AreBytes (suc n) = (omega arith, mac-AreBytes n)

abbrev gate : Access
gate = record { ifac_size = 2; ifac_key = 8 ∷ []; sign = λ bs. take 1 bs ++ (5 ∷ 6 ∷ []) }

admit-transmit_example :
    (sent : Bytes) × (transmit mac (some gate) (1 ∷ 2 ∷ 3 ∷ 4 ∷ []) ≡ some sent)
    × (admit mac (some gate) sent ≡ some (1 ∷ 2 ∷ 3 ∷ 4 ∷ []))
    × (admit mac none sent ≡ none)
    × (admit mac (some gate) (1 ∷ 2 ∷ 3 ∷ 4 ∷ []) ≡ none)
admit-transmit_example =
    admit-transmit mac (λ k bs. refl) (λ k bs. mac-AreBytes 32) gate 1 2 3 (4 ∷ []) (omega arith)
      (omega arith, (omega arith, (omega arith, tt))) (omega arith) (omega arith)
      (omega arith, (omega arith, (omega arith, tt)))

-- What `transmit` sends for the packet 1 2 3 4.
abbrev masked_packet : Bytes
masked_packet = 0x86 ∷ 5 ∷ 5 ∷ 6 ∷ 4 ∷ 3 ∷ []

masked_admitted : admit mac (some gate) masked_packet ≡ some (1 ∷ 2 ∷ 3 ∷ 4 ∷ [])
unfolding admit unmask check_ifac mask_for each_byte inbound_byte hkdf blocks
masked_admitted = refl

admit-signed_example :
    (4 < length masked_packet)
    × (take 2 (drop 2 masked_packet) ≡ last_bytes 2 (gate.sign (1 ∷ 2 ∷ 3 ∷ 4 ∷ [])))
admit-signed_example = admit-signed mac gate masked_packet (1 ∷ 2 ∷ 3 ∷ 4 ∷ []) masked_admitted

abbrev node : Bytes
node = replicate 16 9

abbrev target : Bytes
target = replicate 16 3

-- A link request in transport, with 64 bytes of keys and an MTU of 1000 in mode 1.
abbrev request : Arrived
request = record {
  raw = 0x52 ∷ 4 ∷ (node ++ (target ++ (0 ∷ []) ++ (replicate 64 1 ++ (0x20 ∷ 3 ∷ 0xE8 ∷ []))));
  flags = 0x52;
  hops = 5;
  header_type = 1;
  packet_type = 2;
  context = 0;
  transport_id = some node;
  destination_hash = target;
  payload = replicate 64 1 ++ (0x20 ∷ 3 ∷ 0xE8 ∷ []);
  packet_hash = [];
  receiving_interface = 1;
}

abbrev path : PathEntry
path = record {
  timestamp = 0;
  next_hop = replicate 16 4;
  hops = 2;
  expires = 100;
  random_blobs = [];
  interface = 2;
}

abbrev media : ℕ → Medium
media i = record { hw_mtu = some 500; autoconfigure_mtu = true; fixed_mtu = false }

abbrev timeout : ℕ → ℕ → ℕ
timeout i hops = hops

abbrev sha : Bytes → Bytes
sha bs = bs

abbrev routes : Routes
routes = record {
  tables = record { path_table = []; path_states = []; tables_last_culled = 0 };
  link_table = [];
  reverse_table = [];
  hashes = record { current = []; previous = []; maxsize = 1; is_client = false; identity = node };
  sent = [];
}

abbrev core : Bytes
core = target ++ (0 ∷ [])

request_shape : InTransport request 4 node (core ++ request.payload)
unfolding unpack_flags
request_shape = (refl, refl, omega arith, refl)

next_raw-hash_example :
    (flags : ℕ) × (front : Bytes) × (next_raw request path
      ≡ some (flags ∷ 5 ∷ (front ++ (core ++ request.payload))))
    × (get_hashable_part
          (unpack_flags flags).header_type
          (flags ∷ 5 ∷ (front ++ (core ++ request.payload)))
        ≡ get_hashable_part header_2 request.raw)
    × (get_hashable_part header_2 request.raw ≡ some (2 ∷ (core ++ request.payload)))
next_raw-hash_example =
    next_raw-hash request path 4 node (core ++ request.payload) request_shape refl (omega arith)

-- The request goes on with the MTU lowered from 1000 to 500.
abbrev lowered : Bytes
lowered = 0x52 ∷ 5 ∷ (replicate 16 4 ++ (core ++ (replicate 64 1 ++ (0x20 ∷ 1 ∷ 0xF4 ∷ []))))

abbrev request_id : Bytes
request_id = take 16 (2 ∷ (core ++ replicate 64 1))

request_forwarded :
    forward sha media timeout node 10 request path routes
    ≡ some (after_request sha media timeout node 10 request path lowered request_id routes)
unfolding forward next_raw with_hops forward_request clamp_request clamp_mtu clamped mtu_behind
    mode_behind signalling_bytes link_id_from_lr_packet get_hashable_part truncated_hash full_hash
request_forwarded = refl

forward-link_id_example :
    (new link_id : Bytes) × (after_request sha media timeout node 10 request path lowered request_id
        routes
      ≡ after_request sha media timeout node 10 request path new link_id routes)
    × Received sha media timeout node 10 request path core new link_id
forward-link_id_example =
    forward-link_id sha media timeout node 10 request path 4 node core routes
      (after_request sha media timeout node 10 request path lowered request_id routes) refl
      request_shape refl refl (omega arith) (omega arith) request_forwarded

-- A packet of the link, from the next hop.
abbrev link_packet : Arrived
link_packet = record request {
  raw = 0x0C ∷ 1 ∷ (request_id ++ (0 ∷ 7 ∷ []));
  flags = 0x0C;
  hops = 2;
  header_type = 0;
  packet_type = 0;
  transport_id = none;
  destination_hash = request_id;
  payload = 7 ∷ [];
  receiving_interface = 2;
}

interfaces_differ : path.interface ≢ request.receiving_interface
interfaces_differ h = absurd (omega (arith, h))

link_transport-after_request_example :
    (s : Routes) × (s
      ≡ after_request sha media timeout node 10 request path lowered request_id routes)
    × (((comes sha media timeout node 10 link_packet 2 2 ≡ true)
          × Repeated link_packet 1 s (link_transport 20 link_packet s))
        ⊎ (((comes sha media timeout node 10 link_packet 1 5 ≡ true)
              × Repeated link_packet 2 s (link_transport 20 link_packet s))
            ⊎ ((comes sha media timeout node 10 link_packet 2 2 ≡ false)
                × (comes sha media timeout node 10 link_packet 1 5 ≡ false)
                × (link_transport 20 link_packet s ≡ some s))))
link_transport-after_request_example =
    link_transport-after_request sha media timeout node 10 request path lowered request_id routes
      link_packet 20 interfaces_differ (refl, refl, refl, refl, omega arith)

-- A data packet that was carried on, and the proof for it.
abbrev data_packet : Arrived
data_packet = record request {
  raw = 0x50 ∷ 4 ∷ (node ++ (target ++ (0 ∷ 1 ∷ 2 ∷ [])));
  flags = 0x50;
  packet_type = 0;
  payload = 1 ∷ 2 ∷ [];
}

abbrev data_proof : Arrived
data_proof = record link_packet { destination_hash = take 16 (0 ∷ (target ++ (0 ∷ 1 ∷ 2 ∷ []))) }

truncated :
    get_truncated_hash sha data_packet.header_type data_packet.raw
    ≡ some data_proof.destination_hash
unfolding get_truncated_hash get_hashable_part truncated_hash full_hash
truncated = refl

transport_proof-forward_other_example :
    (s t : Routes) × (forward_other sha media timeout node 10 data_packet path [] routes ≡ some s)
    × (transport_proof data_proof s ≡ some t)
    × (((data_proof.receiving_interface ≡ path.interface)
          × (t.sent ≡ (1, take 1 data_proof.raw ++ (2 ∷ drop 2 data_proof.raw)) ∷ s.sent))
        ⊎ ((data_proof.receiving_interface ≢ path.interface) × (t.sent ≡ s.sent)))
    × ((again : Arrived)
        → transport_proof (record again { destination_hash = data_proof.destination_hash }) t
          ≡ some t)
transport_proof-forward_other_example =
    transport_proof-forward_other sha media timeout node 10 data_packet path [] routes data_proof
      truncated (omega arith)

abbrev recall : Bytes → Option Peer
recall hash = some (record { sig_pub_bytes = replicate 32 8; validate = λ signature text. true })

abbrev link_proof : Arrived
link_proof = record link_packet { payload = replicate 96 6; packet_type = 3; context = 0xFF }

abbrev request_entry : LinkEntry
request_entry = link_entry sha media timeout node 10 request path

transport_lr_proof-valid_example :
    ((transport_lr_proof recall link_proof request_entry routes ≡ routes)
      × ((((2 == 2) && ((2 == 2) && is_valid_proof (recall target) link_proof)) && ltb 2 256)
          ≡ false))
    ⊎ ((peer : Peer) × (signalling : Bytes) × (link_proof.hops ≡ request_entry.remaining_hops)
        × (link_proof.receiving_interface ≡ request_entry.next_hop_interface)
        × (recall target ≡ some peer)
        × (proof_signalling link_proof.payload ≡ some signalling)
        × (peer.validate (take sig_bytes link_proof.payload) (proof_text link_proof peer signalling)
            ≡ true)
        × ((transport_lr_proof recall link_proof request_entry routes).sent
            ≡ (1, take 1 link_proof.raw ++ (2 ∷ drop 2 link_proof.raw)) ∷ [])
        × (find request_id (transport_lr_proof recall link_proof request_entry routes).link_table
            ≡ some (record request_entry { validated = true })))
transport_lr_proof-valid_example = transport_lr_proof-valid recall link_proof request_entry routes
