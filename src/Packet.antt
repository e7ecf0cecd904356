-- ===== src/Packet.antt =====
-- RNS/Packet.py: the wire format of a packet, packing, unpacking and hashing, sending, and the
-- receipt of a sent packet. A packet object is the record `Packet`; an attribute that a slot may
-- not hold yet, and one that may be `None`, is an `Option`.
pub mod Flags
pub mod Pack
pub mod Hash
pub mod Wire
pub mod RoundTrip
pub mod Receipt
pub mod Proofs
pub mod Send
mod Tests
use reticulum.Prelude.{ℕ, Bytes, Bool, Option}

-- Packet types, header types, destination types and the contexts that packing tests.
abbrev pub data_packet : ℕ
data_packet = 0x00

abbrev pub announce : ℕ
announce = 0x01

abbrev pub link_request : ℕ
link_request = 0x02

abbrev pub proof : ℕ
proof = 0x03

abbrev pub header_1 : ℕ
header_1 = 0x00

abbrev pub header_2 : ℕ
header_2 = 0x01

abbrev pub resource : ℕ
resource = 0x01

abbrev pub resource_prf : ℕ
resource_prf = 0x05

abbrev pub cache_request : ℕ
cache_request = 0x08

abbrev pub keepalive : ℕ
keepalive = 0xFA

abbrev pub lr_proof : ℕ
lr_proof = 0xFF

abbrev pub link_destination : ℕ
link_destination = 0x03

-- TRUNCATED_HASHLENGTH//8
abbrev pub dst_len : ℕ
dst_len = 16

-- The destination of an outgoing packet: a Destination, a Link or a ProofDestination. `encrypt` is
-- the method of the object's class, and only a link has a link id.
pub record Target : Type 0 where
  pub hash : Bytes
  pub kind : ℕ
  pub link_id : Option Bytes
  pub encrypt : Bytes → Bytes

pub record Packet : Type 0 where
  pub header_type : ℕ
  pub packet_type : ℕ
  pub transport_type : ℕ
  pub context : ℕ
  pub context_flag : ℕ
  pub hops : ℕ
  pub destination : Target
  pub destination_hash : Bytes
  pub destination_type : ℕ
  pub transport_id : Option Bytes
  pub payload : Bytes
  pub flags : ℕ
  pub header : Bytes
  pub ciphertext : Option Bytes
  pub raw : Bytes
  pub packed : Bool
  pub mtu : ℕ
  pub packet_hash : Option Bytes
