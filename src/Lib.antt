-- ===== src/Lib.antt =====
-- Reticulum is a network stack for encrypted packets over any medium. This library models the
-- parts of it that decide what is sent, accepted and delivered, and proves what they keep.
--
-- The program's parts, and how they interact. A packet (RNS/Packet.py) is packed for a
-- destination, hashed and handed to Transport (RNS/Transport.py), which gives it a transport
-- header, filters what has been seen, decides which announces to take into its path table, and
-- carries the packets of others along paths and over links, and their proofs back; its jobs cull
-- what is old. A destination (RNS/Destination.py) announces itself with the key of its identity
-- (RNS/Identity.py), which others validate and remember, and encrypt for. A receipt waits for the
-- proof of a sent packet. A channel (RNS/Channel.py) sends numbered messages in packets over a
-- link and delivers them in order; a buffer (RNS/Buffer.py) carries streams of bytes over a
-- channel. The link itself (RNS/Link.py) is established by a request and a signed proof, from
-- which both sides derive a key, and is closed by either side or by its watchdog. A resource
-- (RNS/Resource.py) carries data of any size over a link, in parts that the receiver asks for,
-- and is concluded by a proof. The payloads are protected by tokens (RNS/Cryptography/Token.py).
-- An interface (RNS/Interfaces) limits and queues announces, and a serial one frames packets in
-- bytes.
--
-- Which file models which part:
--   Prelude     shared names: Boolean tests, lists, tables over small ranges, results and actions
--   Packet      RNS/Packet.py: Flags (the flag byte), Pack (Packet.pack and unpack), Hash (the
--               hashable part, RNS/Identity.py full_hash), Send (Packet.send and resend), Receipt
--               (PacketReceipt); proofs are in Wire, RoundTrip and Proofs
--   Transport   RNS/Transport.py: Header (outbound, the insertion of a header of type 2), Filter
--               (packet_filter, add_packet_hash), Paths (has_path to path_is_unresponsive),
--               Announces (the decision of inbound on an announce), Rate (its rate limit), Ifac
--               (transmit, and the start of inbound with interface access codes: Unmask and
--               Codes), Forward (inbound where it carries packets: Path, Link and ProofReturn),
--               Outbound (outbound: a packet along a path, and Broadcast on the interfaces),
--               Culling (jobs, where it culls tables, with Rediscover); proofs are in Replay, in
--               Ifac/RoundTrip, in Forward/Request, Clamp, Links, Ways and Returned, in
--               Outbound/Goes, Sent and OnPath, and in Culling/Entries, Kept, Expired and Blocked
--   Identity    RNS/Identity.py and RNS/Destination.py: Keys (load_public_key, sign, validate), Known
--               (remember, _remember_ratchet), Announce (validate_announce), Destination (hash,
--               rotate_ratchets), Announcing (announce), Cipher (encrypt, decrypt); proofs are in
--               Outcome, Accepted, Parts, Genuine, Rotation, AnnounceTrip, Opening and CipherTrip
--   Channel     RNS/Channel.py: Codec (Envelope), Ring (_emplace_envelope), Receive (_receive),
--               Window (_packet_delivered, _packet_timeout), Send (send, is_ready_to_send); proofs
--               are in Collected, Order, Bounds and Stall
--   Buffer      RNS/Buffer.py: Stream (StreamDataMessage), Reader and Writer (the raw channel reader
--               and writer)
--   Link        RNS/Link.py: Signalling (signalling_bytes and what reads them), Keys (handshake,
--               encrypt, decrypt), Establish (validate_request, prove, validate_proof), Closing
--               (rtt_packet, teardown, teardown_packet, link_closed, the watchdog, receive), Requests
--               (RequestReceipt, which a response concludes beside the receipt of its packet, and
--               handle_response); Events puts them together, and proofs are also in
--               Kept, Authentic, Forged, Answer and Handshake
--   Resource    RNS/Resource.py: Mapping (the end of __init__, get_map_hash), Request (request_next,
--               cancel), Receive (receive_part, hashmap_update, the timeout of the watchdog),
--               Assemble (assemble, prove, validate_proof), Serve (request), Slices (the cutting of
--               bytes); proofs are in Consistent, Mapped, Invariant, Progress, Ignored,
--               Agreement, Transfer and Served
--   Crypto      RNS/Cryptography: Pkcs7 (PKCS7.py), Token (Token.py), Hkdf (HKDF.py)
--   Framing     RNS/Interfaces: Hdlc (SerialInterface.py) and Kiss (KISSInterface.py); proofs are in
--               HdlcRoundTrip and KissRoundTrip
--   Interface   RNS/Interfaces/Interface.py: Limit (should_ingress_limit, optimise_mtu and the
--               frequencies), Held (hold_announce, process_held_announces), Queue
--               (process_announce_queue); proofs are also in Release and Chosen
--
-- State is a record with the source's attributes; a method takes it and gives it back beside its
-- answer. A method that may raise gives a Result, and the state as it was left. A byte string is
-- a list of numbers, a loop is structural recursion on the list or the counter that it goes
-- through, so that no loop needs fuel. The Tests module of each part holds runs at concrete
-- values.
--
-- Parameters stand for code that an operation only calls: SHA-256, the HMAC and the block cipher,
-- bz2, the two curves with their keys, the signatures of an identity and their check, the
-- encryption of a destination, the handlers and the message classes of a channel's user, and the
-- time, which an operation reads once. Packet.send takes Transport.outbound, and the writer of a
-- buffer the channel's send, as a function.
--
-- Not modelled: the request handlers and callbacks of destinations, the files that keep keys and
-- ratchets, the advertisements and files of resources, Transport's retransmission of announces,
-- its tunnels and its answers to path requests, discovery, the instance with its configuration
-- (RNS/Reticulum.py), the interfaces to sockets and radios, and the command-line programs. The
-- ciphers and hashes in pure Python and the vendored modules are other projects' code. Locks and
-- threads are left out: an operation is one step.
pub mod Prelude
pub mod Packet
pub mod Transport
pub mod Channel
pub mod Framing
pub mod Identity
pub mod Interface
pub mod Buffer
pub mod Resource
pub mod Link
pub mod Crypto
