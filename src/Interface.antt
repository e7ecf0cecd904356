-- ===== src/Interface.antt =====
-- RNS/Interfaces/Interface.py: what every interface does with announces, and its choice of a
-- hardware MTU. Times are milliseconds on a clock that does not run backwards, and an operation
-- reads the clock once; frequencies that bound others are tenths of a hertz.
pub mod Limit
pub mod Held
pub mod Release
pub mod Queue
pub mod Chosen
mod Tests
use reticulum.Prelude.{ℕ, Bytes, List, Bool, Option}

-- What the ingress control reads of an announce packet.
pub record HeldAnnounce : Type 0 where
  pub destination_hash : Bytes
  pub raw : Bytes
  pub hops : ℕ

-- An entry of the announce queue. Transport makes it, and gives every entry its time.
pub record Queued : Type 0 where
  pub destination : Bytes
  pub time : ℕ
  pub hops : ℕ
  pub emitted : ℕ
  pub raw : Bytes

-- `held_announces` is a dictionary, as the list of its items in the order of their insertion. The
-- two deques are lists, oldest first.
pub record Interface : Type 0 where
  pub autoconfigure_mtu : Bool
  pub bitrate : ℕ
  pub hw_mtu : Option ℕ
  pub created : ℕ
  pub ingress_control : Bool
  pub ic_max_held_announces : ℕ
  pub ic_burst_hold : ℕ
  pub ic_burst_active : Bool
  pub ic_burst_activated : ℕ
  pub ic_held_release : ℕ
  pub ic_burst_freq_new : ℕ
  pub ic_burst_freq : ℕ
  pub ic_new_time : ℕ
  pub ic_burst_penalty : ℕ
  pub ic_held_release_interval : ℕ
  pub held_announces : List (Bytes × HeldAnnounce)
  pub ia_freq_deque : List ℕ
  pub oa_freq_deque : List ℕ
  pub announce_cap : ℕ
  pub announce_allowed_at : ℕ
  pub announce_queue : List Queued
