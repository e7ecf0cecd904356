-- ===== src/Resource/Mapped.antt =====
-- What the mapping of a resource's parts gives, and what it gives after a collision of map hashes.
use reticulum.Prelude.{
  ℕ, ◌<◌, ◌≡◌, refl, ◌⊎◌, inl, inr, ap, ◌∙◌, sym, Bytes, List, [], ◌∷◌, ◌++◌, map, length, Bool,
  true, false, Bool-cases, some, arith,
}
use reticulum.Resource.Slices.{slices, ceil_div, join, join-slices_all}
use reticulum.Resource.Mapping.{
  Sending, get_map_hash, push_guard, map_parts, map_until_ok, init, encrypted_data,
}

-- A part of a list of parts.
abbrev pub IsPart : Bytes → List Bytes → Type 0
IsPart p [] = ⊥
IsPart p (q ∷ qs) = (q ≡ p) ⊎ IsPart p qs

module _ (sha256 : Bytes → Bytes) where
  map_parts-ok :
      (r : Bytes) (ok : Bool) (guarded : List Bytes) (payload : Bytes) (parts : List Bytes)
      → (map_parts sha256 r ok guarded payload parts).hashmap_ok ≡ true
      → ((map_parts sha256 r ok guarded payload parts).parts ≡ parts)
        × ((map_parts sha256 r ok guarded payload parts).hashmap
            ≡ map (get_map_hash sha256 r) parts)
  unfolding map_parts
  map_parts-ok r ok guarded payload [] h = (refl, refl)
  map_parts-ok r ok guarded payload (p ∷ ps) h =
      ground (arith, map_parts-ok r true (push_guard (get_map_hash sha256 r p) guarded) p ps)

  map_parts_collided :
      (r : Bytes) (ok : Bool) (guarded : List Bytes) (payload : Bytes) (p : Bytes) (ps : List Bytes)
      → (map_parts sha256 r ok guarded payload (p ∷ ps)).hashmap_ok ≡ false
      → IsPart (map_parts sha256 r ok guarded payload (p ∷ ps)).payload (p ∷ ps)
  unfolding map_parts
  map_parts_collided r ok guarded payload p [] h = ground arith
  map_parts_collided r ok guarded payload p (q ∷ ps) h =
      ground
        (arith, map_parts_collided r true (push_guard (get_map_hash sha256 r p) guarded) p q ps)

  map_until_ok-parts :
      (rs : List Bytes) (payload : Bytes) (parts : List Bytes) (s : Sending)
      → map_until_ok sha256 rs payload parts ≡ some s
      → (s.parts ≡ parts) × (s.hashmap ≡ map (get_map_hash sha256 s.random_hash) parts)
  unfolding map_until_ok
  map_until_ok-parts [] payload parts s h = absurd (ground arith)
  map_until_ok-parts (r ∷ rs) payload parts s h =
      elim (Bool-cases (map_parts sha256 r false [] payload parts).hashmap_ok) [
        | inl through ↦ ground (arith, through, map_parts-ok r false [] payload parts through)
        | inr collided ↦
            map_until_ok-parts rs (map_parts sha256 r false [] payload parts).payload parts s
              (rw collided at h)
      ]

  -- The hash of what is sent is that of a part.
  abbrev IsHashOfPart : List Bytes → Sending → Type 0
  IsHashOfPart parts s = (q : Bytes) × IsPart q parts × (s.hash ≡ sha256 (q ++ s.random_hash))

  map_until_ok-part :
      (rs : List Bytes) (payload : Bytes) (p : Bytes) (ps : List Bytes) (s : Sending)
      → IsPart payload (p ∷ ps)
      → map_until_ok sha256 rs payload (p ∷ ps) ≡ some s
      → IsHashOfPart (p ∷ ps) s
  unfolding map_until_ok
  map_until_ok-part [] payload p ps s here h = absurd (ground arith)
  map_until_ok-part (r ∷ rs) payload p ps s here h =
      elim (Bool-cases (map_parts sha256 r false [] payload (p ∷ ps)).hashmap_ok) [
        | inl through ↦ (payload, here, ground (arith, through))
        | inr collided ↦
            map_until_ok-part rs (map_parts sha256 r false [] payload (p ∷ ps)).payload p ps s
              (map_parts_collided r false [] payload p ps collided) (rw collided at h)
      ]

  -- Where the map hashes collide under the first random hash, the resource gets the hash of one of its
  -- parts in place of that of its data.
  pub map_until_ok_collided :
      (r : Bytes) (rs : List Bytes) (payload : Bytes) (p : Bytes) (ps : List Bytes) (s : Sending)
      → (map_parts sha256 r false [] payload (p ∷ ps)).hashmap_ok ≡ false
      → map_until_ok sha256 (r ∷ rs) payload (p ∷ ps) ≡ some s
      → IsHashOfPart (p ∷ ps) s
  unfolding map_until_ok
  map_until_ok_collided r rs payload p ps s collided h =
      map_until_ok-part rs (map_parts sha256 r false [] payload (p ∷ ps)).payload p ps s
        (map_parts_collided r false [] payload p ps collided) (rw collided at h)

  -- Where they do not collide, the hash and the expected proof are those of the data.
  pub map_until_ok_first :
      (r : Bytes) (rs : List Bytes) (payload : Bytes) (parts : List Bytes)
      → (map_parts sha256 r false [] payload parts).hashmap_ok ≡ true
      → map_until_ok sha256 (r ∷ rs) payload parts
        ≡ some (record {
          random_hash = r;
          hash = sha256 (payload ++ r);
          expected_proof = sha256 (payload ++ sha256 (payload ++ r));
          hashmap = map (get_map_hash sha256 r) parts;
          parts = parts;
        })
  unfolding map_until_ok
  map_until_ok_first r rs payload parts through =
      ground (arith, through, map_parts-ok r false [] payload parts through)

  -- The parts that are sent, put together, are the encrypted data, and the hashmap holds the map hash
  -- of each, in order.
  pub init-parts :
      (compress encrypt : Bytes → Bytes) (sdu : ℕ) (auto_compress : Bool) (prefix : Bytes)
      (random_hashes : List Bytes) (payload : Bytes) (s : Sending)
      → 0 < sdu
      → init sha256 compress encrypt sdu auto_compress prefix random_hashes payload ≡ some s
      → (join s.parts ≡ encrypted_data sha256 compress encrypt auto_compress prefix payload)
        × (s.hashmap ≡ map (get_map_hash sha256 s.random_hash) s.parts)
  unfolding init
  init-parts compress encrypt sdu auto_compress prefix random_hashes payload s h made =
      let sent : Bytes = encrypted_data sha256 compress encrypt auto_compress prefix payload in
      let (same, hashes) =
        map_until_ok-parts random_hashes payload (slices sdu 0 (ceil_div (length sent) sdu) sent) s
          made in
      (
        ap join same ∙ join-slices_all sdu sent h,
        hashes ∙ ap (map (get_map_hash sha256 s.random_hash)) (sym same),
      )
