-- ===== src/Transport/Forward.antt =====
-- Transport.inbound where a node carries packets of others: along a path, over a link and back along
-- the way of a proof. The packet as `inbound` has it after `unpack`, and the tables that it keeps.
pub mod Path
pub mod Request
pub mod Clamp
pub mod Links
pub mod Ways
pub mod Returned
pub mod Link
pub mod ProofReturn
use reticulum.Prelude.{
  ℕ, [], ltb, Bytes, List, ◌∷◌, ◌++◌, take, drop, Bool, true, false, Option, none, some, bytes_eq,
  if◌then◌else◌,
}
use reticulum.Transport.Paths.{Tables}
use reticulum.Transport.Filter.{Hashes}

-- What `inbound` reads of a packet: `payload` is its attribute `data`, `receiving_interface` the
-- interface it came in on, `hops` the count of its header, one more on most interfaces.
pub record Arrived : Type 0 where
  pub raw : Bytes
  pub flags : ℕ
  pub hops : ℕ
  pub header_type : ℕ
  pub packet_type : ℕ
  pub context : ℕ
  pub transport_id : Option Bytes
  pub destination_hash : Bytes
  pub payload : Bytes
  pub packet_hash : Bytes
  pub receiving_interface : ℕ

-- HW_MTU, AUTOCONFIGURE_MTU and FIXED_MTU of an interface.
pub record Medium : Type 0 where
  pub hw_mtu : Option ℕ
  pub autoconfigure_mtu : Bool
  pub fixed_mtu : Bool

-- The nine fields of an entry of `link_table`, in their order, and the three of `reverse_table`.
pub record LinkEntry : Type 0 where
  pub timestamp : ℕ
  pub next_hop : Bytes
  pub next_hop_interface : ℕ
  pub remaining_hops : ℕ
  pub received_on : ℕ
  pub hops : ℕ
  pub destination_hash : Bytes
  pub validated : Bool
  pub proof_timeout : ℕ

pub record ReverseEntry : Type 0 where
  pub received_on : ℕ
  pub outbound_interface : ℕ
  pub timestamp : ℕ

-- The tables by hash, as the lists of their writes, latest first; `sent` has the calls of
-- Transport.transmit, latest first.
pub record Routes : Type 0 where
  pub tables : Tables
  pub link_table : List (Bytes × LinkEntry)
  pub reverse_table : List (Bytes × ReverseEntry)
  pub hashes : Hashes
  pub sent : List (ℕ × Bytes)

-- `struct.pack("!B", hops)`, which raises where the number has no byte, between the first byte
-- of the packet and the rest.
unfoldable pub with_hops : Bytes → ℕ → Bytes → Option Bytes
with_hops first hops rest = if ltb hops 256 then some (first ++ (hops ∷ rest)) else none

-- `packet.raw[0:1]`, the hop count and `packet.raw[2:]`.
unfoldable pub repeated : Arrived → Option Bytes
unfolding with_hops
repeated p = with_hops (take 1 p.raw) p.hops (drop 2 p.raw)

abbrev pub send_on : ℕ → Bytes → Routes → Routes
send_on interface raw r = record r { sent = (interface, raw) ∷ r.sent }

-- A dictionary without a key.
module _ {V : Type 0} where
  unfoldable pub without : Bytes → List (Bytes × V) → List (Bytes × V)
  without k [] = []
  without k ((j, v) ∷ d) = let rest = without k d in if bytes_eq j k then rest else (j, v) ∷ rest
