-- ===== src/Resource/Assemble.antt =====
-- Resource.assemble and prove on the receiving side, and validate_proof on the sending side. The
-- link's cipher and bz2 are parameters; what goes into the files of the storage path is part of the
-- result.
use reticulum.Prelude.{
  ℕ, ◌+◌, ◌*◌, Bytes, bytes_eq, List, [], ◌∷◌, ◌++◌, length, take, drop, Bool, true, false, ◌&&◌,
  ◌==◌, Option, none, some, if◌then◌else◌,
}
use reticulum.Resource.{Status, transferring, complete, corrupt, random_hash_size}
use reticulum.Resource.Mapping.{Sending}
use reticulum.Resource.Request.{is_failed}

-- What a receiver knows of the resource, from its advertisement.
pub record Incoming : Type 0 where
  pub status : Status
  pub hash : Bytes
  pub random_hash : Bytes
  pub encrypted : Bool
  pub compressed : Bool
  pub has_metadata : Bool
  pub segment_index : ℕ

-- What an assembly writes to the metadata file and appends to the data file, and the content of the
-- proof packet.
pub record Assembled : Type 0 where
  pub metadata : Option Bytes
  pub stored : Bytes
  pub proof_data : Bytes

-- What Resource.accept takes from the advertisement of a resource without metadata, in one segment.
abbrev pub accepted : Sending → Bool → Incoming
accepted s compressed = record {
  status = transferring;
  hash = s.hash;
  random_hash = s.random_hash;
  encrypted = true;
  compressed = compressed;
  has_metadata = false;
  segment_index = 1;
}

-- `b"".join(self.parts)`; a part that is missing raises.
unfoldable pub join_parts : List (Option Bytes) → Option Bytes
join_parts [] = some []
join_parts (none ∷ ps) = none
join_parts (some p ∷ ps) = elim (join_parts ps) [ none ↦ none | some bs ↦ some (p ++ bs) ]

-- The metadata behind its length in three bytes, and the rest; less than three bytes raise.
unfoldable pub split_metadata : Bytes → Option (Bytes × Bytes)
split_metadata (a ∷ b ∷ c ∷ rest) =
    let size = a * 65536 + b * 256 + c in some (take size rest, drop size rest)
split_metadata _ = none

module _ (sha256 : Bytes → Bytes) (decrypt decompress : Bytes → Option Bytes) where
  abbrev pub maybe : Bool → (Bytes → Option Bytes) → Bytes → Option Bytes
  maybe true f bs = f bs
  maybe false f bs = some bs

  -- The stream without its encryption, its random prefix and its compression.
  unfoldable pub open_stream : Incoming → Bytes → Option Bytes
  open_stream r stream = elim (maybe r.encrypted decrypt stream) [
    | none ↦ none
    | some bs ↦ maybe r.compressed decompress (drop random_hash_size bs)
  ]

  abbrev pub is_first_with_metadata : Incoming → Bool
  is_first_with_metadata r = r.has_metadata && r.segment_index == 1

  abbrev pub written : Incoming → Bytes → Option (Option Bytes × Bytes)
  written r payload =
      if is_first_with_metadata r
      then elim (split_metadata payload) [
        | none ↦ none
        | some (metadata, rest) ↦ some (some metadata, rest)
      ]
      else some (none, payload)

  -- The test of the hash, and what follows it.
  unfoldable pub store : Incoming → Bytes → Option Assembled × Incoming
  unfolding split_metadata
  store r payload =
      if bytes_eq (sha256 (payload ++ r.random_hash)) r.hash
      then elim (written r payload) [
        | none ↦ (none, record r { status = corrupt })
        | some (metadata, stored) ↦ (
          some (record {
            metadata = metadata;
            stored = stored;
            proof_data = r.hash ++ sha256 (payload ++ r.hash);
          }),
          record r { status = complete },
        )
      ]
      else (none, record r { status = corrupt })

  unfoldable pub assemble : List (Option Bytes) → Incoming → Option Assembled × Incoming
  unfolding join_parts open_stream store
  assemble parts r = if is_failed r.status then (none, r) else elim (join_parts parts) [
    | none ↦ (none, record r { status = corrupt })
    | some stream ↦ elim (open_stream r stream) [
      | none ↦ (none, record r { status = corrupt })
      | some payload ↦ store r payload
    ]
  ]

-- HASHLENGTH//8
abbrev pub hash_bytes : ℕ
hash_bytes = 32

-- The status of the sending side after a proof, and whether the segment is concluded.
unfoldable pub validate_proof : Bytes → Bytes → Status → Bool × Status
validate_proof expected_proof proof_data status =
    if is_failed status
    then (false, status)
    else if length proof_data == hash_bytes * 2
    then if bytes_eq (drop hash_bytes proof_data) expected_proof
      then (true, complete)
      else (false, status)
    else (false, status)
