-- ===== src/Packet/Hash.antt =====
-- Packet.get_hashable_part, get_hash and getTruncatedHash, with Identity.full_hash and
-- Identity.truncated_hash. SHA-256 itself is a parameter.
use reticulum.Prelude.{
  ℕ, ◌+◌, ◌%◌, ◌<◌, ◌≡◌, refl, bit_and, Bytes, take, drop, true, Option, none, some, [], ◌∷◌, ◌==◌,
  ==_iff, if◌then◌else◌,
}
use reticulum.Prelude.Tables.{all_below, all_below_sound}
use reticulum.Packet.{header_2, dst_len}

-- `raw[0]` raises on an empty packet, which is `none` here.
unfoldable pub get_hashable_part : ℕ → Bytes → Option Bytes
get_hashable_part header_type [] = none
get_hashable_part header_type (first ∷ rest) =
    let raw = first ∷ rest in
    some (
      bit_and first 0b00001111
      ∷ (if header_type == header_2 then drop (dst_len + 2) raw else drop 2 raw))

module _ (sha256 : Bytes → Bytes) where
  unfoldable pub full_hash : Bytes → Bytes
  full_hash payload = sha256 payload

  -- `full_hash(data)[:TRUNCATED_HASHLENGTH//8]`
  unfoldable pub truncated_hash : Bytes → Bytes
  unfolding full_hash
  truncated_hash payload = take dst_len (full_hash payload)

  unfoldable pub get_hash : ℕ → Bytes → Option Bytes
  unfolding full_hash get_hashable_part
  get_hash header_type raw = elim (get_hashable_part header_type raw) [
    | none ↦ none
    | some part ↦ some (full_hash part)
  ]

  unfoldable pub get_truncated_hash : ℕ → Bytes → Option Bytes
  unfolding truncated_hash get_hashable_part
  get_truncated_hash header_type raw = elim (get_hashable_part header_type raw) [
    | none ↦ none
    | some part ↦ some (truncated_hash part)
  ]

-- The low half of the flags does not see the high half.
low_half_table : all_below 256 (λ f. bit_and f 0b00001111 == f % 16) ≡ true
unfolding all_below
low_half_table = refl

pub low_half : (f : ℕ) → f < 256 → bit_and f 0b00001111 ≡ f % 16
low_half f h = (==_iff _ _).0 (all_below_sound 256 _ low_half_table f h)
