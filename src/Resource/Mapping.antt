-- ===== src/Resource/Mapping.antt =====
-- The end of Resource.__init__, for data to send: the parts of the encrypted data and their map
-- hashes. The loop over the parts is run again, with a new random hash, when two map hashes that are
-- close to one another are the same.
use reticulum.Prelude.{
  ℕ, Bytes, List, [], ◌∷◌, ◌++◌, length, take, drop, Bool, true, false, ltb, Option, none, some,
  if◌then◌else◌,
}
use reticulum.Transport.Announces.{contains}
use reticulum.Resource.{maphash_len, random_hash_size, collision_guard_size}
use reticulum.Resource.Slices.{slices, ceil_div}

-- The last map hashes, oldest first.
unfoldable pub push_guard : Bytes → List Bytes → List Bytes
push_guard h guarded =
    let longer = guarded ++ h ∷ [] in
    if ltb collision_guard_size (length longer) then drop 1 longer else longer

-- What a run of the loop leaves in the variables: whether it went through, the map hashes, the parts,
-- and `data`, which the loop uses for the part at hand.
pub record Mapped : Type 0 where
  pub hashmap_ok : Bool
  pub hashmap : List Bytes
  pub parts : List Bytes
  pub payload : Bytes

pub record Sending : Type 0 where
  pub random_hash : Bytes
  pub hash : Bytes
  pub expected_proof : Bytes
  pub hashmap : List Bytes
  pub parts : List Bytes

module _ (sha256 : Bytes → Bytes) where
  unfoldable pub get_map_hash : Bytes → Bytes → Bytes
  get_map_hash random_hash part = take maphash_len (sha256 (part ++ random_hash))

  -- `hashmap_ok` is false before the first part.
  unfoldable pub map_parts : Bytes → Bool → List Bytes → Bytes → List Bytes → Mapped
  unfolding get_map_hash contains push_guard
  map_parts random_hash hashmap_ok guarded payload [] = record {
    hashmap_ok = hashmap_ok;
    hashmap = [];
    parts = [];
    payload = payload;
  }
  map_parts random_hash hashmap_ok guarded payload (part ∷ parts) =
      let h = get_map_hash random_hash part in
      let rest = map_parts random_hash true (push_guard h guarded) part parts in
      if contains h guarded
      then record { hashmap_ok = false; hashmap = []; parts = []; payload = part }
      else record rest { hashmap = h ∷ rest.hashmap; parts = part ∷ rest.parts }

  -- The outer loop, over the random hashes that it draws; the parts are those of the encrypted data.
  -- `payload` is the variable `data`: the loop over the parts has changed it when it is run again.
  unfoldable pub map_until_ok : List Bytes → Bytes → List Bytes → Option Sending
  unfolding map_parts
  map_until_ok [] payload parts = none
  map_until_ok (random_hash ∷ more) payload parts =
      let m = map_parts random_hash false [] payload parts in
      let rest = map_until_ok more m.payload parts in
      let hash = sha256 (payload ++ random_hash) in
      if m.hashmap_ok
      then some (record {
        random_hash = random_hash;
        hash = hash;
        expected_proof = sha256 (payload ++ hash);
        hashmap = m.hashmap;
        parts = m.parts;
      })
      else rest

  -- From the data, with its metadata in front: compressed where that makes it smaller, behind a random
  -- prefix, and encrypted; `sdu` is the size of a part. `auto_compress` is whether the option is on and
  -- the data not larger than its limit.
  module _ (compress encrypt : Bytes → Bytes) where
    abbrev pub is_compressed : Bool → Bytes → Bool
    is_compressed auto_compress payload =
        if auto_compress then ltb (length (compress payload)) (length payload) else false

    abbrev pub carried : Bool → Bytes → Bytes
    carried auto_compress payload =
        if is_compressed auto_compress payload then compress payload else payload

    unfoldable pub encrypted_data : Bool → Bytes → Bytes → Bytes
    encrypted_data auto_compress prefix payload =
        encrypt (take random_hash_size prefix ++ carried auto_compress payload)

    unfoldable pub init : ℕ → Bool → Bytes → List Bytes → Bytes → Option Sending
    unfolding encrypted_data map_until_ok
    init sdu auto_compress prefix random_hashes payload =
        let sent = encrypted_data auto_compress prefix payload in
        map_until_ok random_hashes payload (slices sdu 0 (ceil_div (length sent) sdu) sent)
