-- ===== src/Channel.antt =====
-- RNS/Channel.py: reliable, ordered messages over a link. `Envelope` and `Channel` are the objects
-- of that file; the children model its methods and prove what they keep.
pub mod Codec
pub mod Ring
pub mod Receive
pub mod Collected
pub mod Order
pub mod Window
pub mod Bounds
pub mod Send
pub mod Stall
mod Tests
use reticulum.Prelude.{ℕ, Bytes, Option, Bool, List}

abbrev pub seq_modulus : ℕ
seq_modulus = 0x10000

abbrev pub window_max_fast : ℕ
window_max_fast = 48

-- A message: the MSGTYPE of its class, and the bytes that its `pack` returns.
pub record Message : Type 0 where
  pub msgtype : Option ℕ
  pub payload : Bytes

-- The message factories: for a registered type, the `unpack` of a fresh object of the class.
abbrev pub Factories : Type 0
Factories = ℕ → Option (Bytes → Option Message)

-- `packet` is the outlet's id of the packet that carried the envelope.
pub record Envelope : Type 0 where
  pub sequence : ℕ
  pub message : Option Message
  pub raw : Option Bytes
  pub packet : Option ℕ
  pub tries : ℕ
  pub unpacked : Bool
  pub packed : Bool
  pub tracked : Bool

-- A handler answers whether it took the message; `none` is an exception.
abbrev pub Handler : Type 0
Handler = Message → Option Bool

pub record Channel : Type 0 where
  pub tx_ring : List Envelope
  pub rx_ring : List Envelope
  pub message_callbacks : List Handler
  pub next_sequence : ℕ
  pub next_rx_sequence : ℕ
  pub message_factories : Factories
  pub max_tries : ℕ
  pub fast_rate_rounds : ℕ
  pub medium_rate_rounds : ℕ
  pub window : ℕ
  pub window_max : ℕ
  pub window_min : ℕ
  pub window_flexibility : ℕ
