-- ===== src/Link.antt =====
-- RNS/Link.py: an encrypted link between an initiator and a destination. The initiator's request
-- carries keys and the MTU, the destination answers with a signed proof, and the initiator's rtt
-- packet makes the link active on both sides. Times are milliseconds.
pub mod Signalling
pub mod Keys
pub mod Establish
pub mod Closing
pub mod Events
pub mod Kept
pub mod Authentic
pub mod Forged
pub mod Answer
pub mod Handshake
pub mod Requests
mod Tests
use reticulum.Prelude.{ℕ, ◌+◌, ◌*◌, ◌/◌, Bytes, Bool, true, false, Option, none, some, min, max}
use reticulum.Crypto.Token.{Token}

-- ECPUBSIZE//2, SIGLENGTH//8 and LINK_MTU_SIZE
abbrev pub key_bytes : ℕ
key_bytes = 32

abbrev pub sig_bytes : ℕ
sig_bytes = 64

abbrev pub link_mtu_size : ℕ
link_mtu_size = 3

-- MTU of RNS/Reticulum.py
abbrev pub default_mtu : ℕ
default_mtu = 500

-- MODE_AES128_CBC, and MODE_AES256_CBC, the one that is enabled and the default
abbrev pub mode_aes128_cbc : ℕ
mode_aes128_cbc = 0

abbrev pub mode_aes256_cbc : ℕ
mode_aes256_cbc = 1

pub data Status : Type 0 where
  pending handshaking active stale closed : Status

pub data Reason : Type 0 where
  timeout initiator_closed destination_closed : Reason

abbrev pub is_pending : Status → Bool
is_pending pending = true
is_pending _ = false

abbrev pub is_handshaking : Status → Bool
is_handshaking handshaking = true
is_handshaking _ = false

abbrev pub is_stale : Status → Bool
is_stale stale = true
is_stale _ = false

abbrev pub is_closed : Status → Bool
is_closed closed = true
is_closed _ = false

-- `private_key` is `self.prv`. Resources, the channel and pending requests are not part of the state.
pub record Link : Type 0 where
  pub status : Status
  pub initiator : Bool
  pub mode : ℕ
  pub mtu : ℕ
  pub link_id : Bytes
  pub private_key : Option Bytes
  pub peer_pub_bytes : Option Bytes
  pub derived_key : Option Bytes
  pub token : Option Token
  pub rtt : Option ℕ
  pub request_time : ℕ
  pub establishment_timeout : ℕ
  pub activated_at : Option ℕ
  pub last_inbound : ℕ
  pub last_outbound : ℕ
  pub last_keepalive : ℕ
  pub last_proof : ℕ
  pub last_data : ℕ
  pub keepalive : ℕ
  pub stale_time : ℕ
  pub attached_interface : Option ℕ
  pub teardown_reason : Option Reason

-- What an operation does besides. `concludes` is the end of link_closed: resources are cancelled, the
-- channel is shut down and the callback called. `hands_on` gives a packet of another context to the
-- code for it. `raises` is an exception.
pub data Effect : Type 0 where
  sends_rtt sends_close sends_keepalive answers_keepalive established concludes raises : Effect
  hands_on : ℕ → Effect

-- had_outbound, of a packet that is not a keepalive, and of one that is.
abbrev pub had_outbound : ℕ → Link → Link
had_outbound now l = record l { last_outbound = now; last_data = now }

abbrev pub had_keepalive : ℕ → Link → Link
had_keepalive now l = record l { last_outbound = now; last_keepalive = now }

-- `max(min(rtt*(KEEPALIVE_MAX/KEEPALIVE_MAX_RTT), KEEPALIVE_MAX), KEEPALIVE_MIN)`, where the factor is
-- 360/1.75; rounded down.
abbrev pub keepalive_of : ℕ → ℕ
keepalive_of rtt = max (min (rtt * 1440 / 7) 360000) 5000

-- STALE_FACTOR is 2.
abbrev pub update_keepalive : ℕ → Link → Link
update_keepalive rtt l = record l {
  keepalive = keepalive_of rtt;
  stale_time = keepalive_of rtt * 2;
}
