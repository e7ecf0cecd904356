-- ===== src/Identity/Destination.antt =====
-- Destination.hash, and the ratchets of a destination. What the clock, the
-- random source, the new ratchet and the disk give to a call is the record `Moment`.
use reticulum.Prelude.{
  ℕ, ◌+◌, Bytes, length, take, List, ◌∷◌, ◌++◌, Bool, true, false, Option, none, some, ltb,
  if◌then◌else◌,
}
use reticulum.Prelude.Results.{ok, err, Exec}
use reticulum.Packet.{dst_len}
use reticulum.Packet.Hash.{full_hash}
use reticulum.Identity.{Identity, name_hash_len}
use reticulum.Identity.Known.{Known}

abbrev pub single : ℕ
single = 0x00

-- Destination.IN
abbrev pub inward : ℕ
inward = 0x11

abbrev pub ratchet_count : ℕ
ratchet_count = 512

abbrev pub pr_tag_window : ℕ
pr_tag_window = 30

-- Destination.hash, less the expansion of the name: `name` is the encoded full name, and the
-- identity is there as its hash.
unfoldable pub destination_hash : (Bytes → Bytes) → Bytes → Option Bytes → Bytes
destination_hash sha256 name none =
    take dst_len (full_hash sha256 (take name_hash_len (full_hash sha256 name)))
destination_hash sha256 name (some identity_hash) =
    take dst_len (full_hash sha256 (take name_hash_len (full_hash sha256 name) ++ identity_hash))

-- Nothing, bytes, or a function: then what it returned, where that was bytes.
pub data DefaultAppData : Type 0 where
  not_set : DefaultAppData
  fixed : Bytes → DefaultAppData
  computed : Option Bytes → DefaultAppData

pub record Destination : Type 0 where
  pub kind : ℕ
  pub direction : ℕ
  pub hash : Bytes
  pub name_hash : Bytes
  pub identity : Identity
  pub default_app_data : DefaultAppData
  pub ratchets : Option (List Bytes)
  pub retained_ratchets : ℕ
  pub ratchet_interval : ℕ
  pub latest_ratchet_time : ℕ
  -- by tag, which may be None: the time and the announce data, latest write first
  pub path_responses : List (Option Bytes × ℕ × Bytes)

pub record Node : Type 0 where
  pub destination : Destination
  pub known : Known

pub record Moment : Type 0 where
  pub now : ℕ
  pub random_hash : Bytes
  pub new_ratchet : Bytes
  pub can_write : Bool

pub data AnnounceError : Type 0 where
  not_single not_inward ratchets_disabled not_persisted no_ratchet time_overflow unsigned :
      AnnounceError

unfoldable pub clean_ratchets : ℕ → List Bytes → List Bytes
clean_ratchets retained ratchets =
    if ltb retained (length ratchets) then take ratchet_count ratchets else ratchets

unfoldable pub set_retained_ratchets : ℕ → Destination → Bool × Destination
unfolding clean_ratchets
set_retained_ratchets retained d =
    if ltb 0 retained
    then (
      true,
      elim d.ratchets [
        | none ↦ record d { retained_ratchets = retained }
        | some ratchets ↦ record d {
          retained_ratchets = retained;
          ratchets = some (clean_ratchets retained ratchets);
        }
      ],
    )
    else (false, d)

unfoldable pub set_ratchet_interval : ℕ → Destination → Bool × Destination
set_ratchet_interval interval d =
    if ltb 0 interval then (true, record d { ratchet_interval = interval }) else (false, d)

-- _persist_ratchets, of which only the failure shows here.
unfoldable pub persist_ratchets : Moment → Exec AnnounceError Destination (Unit {0})
persist_ratchets m d =
    if m.can_write then (ok tt, d) else (err not_persisted, record d { ratchets = none })

unfoldable pub rotate_ratchets : Moment → Exec AnnounceError Destination (Unit {0})
unfolding persist_ratchets clean_ratchets
rotate_ratchets m d = elim d.ratchets [
  | none ↦ (err ratchets_disabled, d)
  | some ratchets ↦
      if ltb (d.latest_ratchet_time + d.ratchet_interval) m.now
      then persist_ratchets m (record d {
        ratchets = some (clean_ratchets d.retained_ratchets (m.new_ratchet ∷ ratchets));
        latest_ratchet_time = m.now;
      })
      else (ok tt, d)
]
