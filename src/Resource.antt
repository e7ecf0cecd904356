-- ===== src/Resource.antt =====
-- RNS/Resource.py: the transfer of data over a link, in parts. The sender cuts what it has encrypted
-- into parts and advertises their map hashes; the receiver requests parts by their hashes, window by
-- window, and assembles them; a proof concludes the transfer.
pub mod Slices
pub mod Mapping
pub mod Mapped
pub mod Request
pub mod Receive
pub mod Consistent
pub mod Invariant
pub mod Progress
pub mod Ignored
pub mod Assemble
pub mod Agreement
pub mod Transfer
pub mod Serve
pub mod Served
mod Tests
use reticulum.Prelude.{ℕ}

-- MAPHASH_LEN, RANDOM_HASH_SIZE
abbrev pub maphash_len : ℕ
maphash_len = 4

abbrev pub random_hash_size : ℕ
random_hash_size = 4

-- WINDOW, WINDOW_MIN and the maxima for slow, very slow and fast links
abbrev pub initial_window : ℕ
initial_window = 4

abbrev pub window_minimum : ℕ
window_minimum = 2

abbrev pub window_max_slow : ℕ
window_max_slow = 10

abbrev pub window_max_very_slow : ℕ
window_max_very_slow = 4

abbrev pub window_max_fast : ℕ
window_max_fast = 75

-- FAST_RATE_THRESHOLD and VERY_SLOW_RATE_THRESHOLD, in rounds; RATE_FAST and RATE_VERY_SLOW, in
-- bytes per second.
abbrev pub fast_rate_threshold : ℕ
fast_rate_threshold = 4

abbrev pub very_slow_rate_threshold : ℕ
very_slow_rate_threshold = 2

abbrev pub rate_fast : ℕ
rate_fast = 6250

abbrev pub rate_very_slow : ℕ
rate_very_slow = 250

abbrev pub window_flexibility : ℕ
window_flexibility = 4

abbrev pub max_retries : ℕ
max_retries = 16

-- HASHMAP_MAX_LEN, with the MDU of a link, and COLLISION_GUARD_SIZE
abbrev pub hashmap_max_len : ℕ
hashmap_max_len = 74

abbrev pub collision_guard_size : ℕ
collision_guard_size = 224

-- REJECTED has the number of NONE.
pub data Status : Type 0 where
  unset queued advertised transferring awaiting_proof assembling complete failed corrupt : Status

-- The number of a status.
abbrev pub rank : Status → ℕ
rank unset = 0
rank queued = 1
rank advertised = 2
rank transferring = 3
rank awaiting_proof = 4
rank assembling = 5
rank complete = 6
rank failed = 7
rank corrupt = 8
