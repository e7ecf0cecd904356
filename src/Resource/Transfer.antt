-- ===== src/Resource/Transfer.antt =====
-- A whole transfer: what a receiver assembles of the parts that a sender made, and the proof that it
-- gives for it.
use reticulum.Prelude.{
  ℕ, ◌*◌, ◌<◌, ◌≡◌, refl, ap, ◌∙◌, Bytes, bytes_eq, bytes_eq_refl, List, [], ◌∷◌, ◌++◌, length,
  length-append, take, drop, drop-append, length-take, Bool, true, false, Option, none, some, arith,
  if◌then◌else◌, ◌==◌,
}
use reticulum.Resource.{Status, complete, random_hash_size}
use reticulum.Resource.Slices.{slices, ceil_div}
use reticulum.Resource.Mapping.{Sending, map_parts, init, is_compressed, carried, encrypted_data}
use reticulum.Resource.Mapped.{init-parts, map_until_ok_first}
use reticulum.Resource.Request.{is_failed}
use reticulum.Resource.Consistent.{count_filled}
use reticulum.Resource.Assemble.{
  hash_bytes, Assembled, maybe, accepted, join_parts, open_stream, store, assemble, validate_proof,
}
use reticulum.Resource.Agreement.{Agrees, Agrees-join}

module _ (sha256 compress encrypt : Bytes → Bytes) (decrypt decompress : Bytes → Option Bytes)
    (hash_length : (bs : Bytes) → length (sha256 bs) ≡ hash_bytes)
    (decrypts : (bs : Bytes) → decrypt (encrypt bs) ≡ some bs)
    (decompresses : (bs : Bytes) → decompress (compress bs) ≡ some bs) where
  maybe-decompress :
      (b : Bool) (payload : Bytes)
      → maybe sha256 decrypt decompress b decompress (if b then compress payload else payload)
        ≡ some payload
  maybe-decompress true payload = decompresses payload
  maybe-decompress false payload = refl

  open_stream_lem :
      (auto_compress : Bool) (prefix payload : Bytes) (s : Sending)
      → length prefix ≡ random_hash_size
      → open_stream sha256 decrypt decompress
          (accepted s (is_compressed sha256 compress encrypt auto_compress payload))
          (encrypted_data sha256 compress encrypt auto_compress prefix payload)
        ≡ some payload
  unfolding open_stream encrypted_data
  open_stream_lem auto_compress prefix payload s h =
      let plain : Bytes = carried sha256 compress encrypt auto_compress payload in
      let cut : drop random_hash_size (take random_hash_size prefix ++ plain) ≡ plain =
        drop-append random_hash_size (take random_hash_size prefix) plain
          (omega (arith, length-take random_hash_size prefix)) in
      rw (decrypts (take random_hash_size prefix ++ plain), cut)
        (maybe-decompress (is_compressed sha256 compress encrypt auto_compress payload) payload)

  -- What is stored of data that was sent, and the proof for it.
  abbrev pub stored : Bytes → Sending → Assembled
  stored payload s = record {
    metadata = none;
    stored = payload;
    proof_data = s.hash ++ sha256 (payload ++ s.hash);
  }

  store_lem :
      (payload : Bytes) (s : Sending) (c : Bool)
      → s.hash ≡ sha256 (payload ++ s.random_hash)
      → store sha256 decrypt decompress (accepted s c) payload
        ≡ (some (stored payload s), record (accepted s c) { status = complete })
  unfolding store
  store_lem payload s c h =
      let kept : bytes_eq (sha256 (payload ++ s.random_hash)) s.hash ≡ true =
        ap (bytes_eq (sha256 (payload ++ s.random_hash))) h
        ∙ bytes_eq_refl (sha256 (payload ++ s.random_hash)) in
      rw (store, kept) refl

  validate_proof_lem :
      (payload : Bytes) (s : Sending) (status : Status)
      → length s.hash ≡ hash_bytes
      → s.expected_proof ≡ sha256 (payload ++ s.hash)
      → is_failed status ≡ false
      → validate_proof s.expected_proof (s.hash ++ sha256 (payload ++ s.hash)) status
        ≡ (true, complete)
  unfolding validate_proof
  validate_proof_lem payload s status len proof alive =
      let p : Bytes = sha256 (payload ++ s.hash) in
      let whole : (length (s.hash ++ p) == hash_bytes * 2) ≡ true =
        ground (arith, length-append s.hash p, len, hash_length (payload ++ s.hash)) in
      let kept : bytes_eq (drop hash_bytes (s.hash ++ p)) s.expected_proof ≡ true =
        ap (λ (t : Bytes). bytes_eq t s.expected_proof) (drop-append hash_bytes s.hash p len)
        ∙ ap (bytes_eq p) proof
        ∙ bytes_eq_refl p in
      rw (validate_proof, alive, whole, kept) refl

  -- The parts of the encrypted data.
  abbrev pub parts_of : ℕ → Bool → Bytes → Bytes → List Bytes
  parts_of sdu auto_compress prefix payload =
      let sent = encrypted_data sha256 compress encrypt auto_compress prefix payload in
      slices sdu 0 (ceil_div (length sent) sdu) sent

  -- A transfer as a whole. Where the link decrypts what it encrypts, bz2 decompresses what it
  -- compresses, hashes have 32 bytes, and no map hashes collide at the first attempt: a receiver that
  -- has all parts that the sender made of its data, each in its place, and a resource without metadata,
  -- stores that data and completes, and the sender takes its proof and completes too.
  pub assemble-init :
      (sdu : ℕ) (auto_compress : Bool) (prefix r : Bytes) (rs : List Bytes) (payload : Bytes)
      (s : Sending)
      → 0 < sdu
      → length prefix ≡ random_hash_size
      → (map_parts sha256 r false [] payload (parts_of sdu auto_compress prefix payload)).hashmap_ok
        ≡ true
      → init sha256 compress encrypt sdu auto_compress prefix (r ∷ rs) payload ≡ some s
      → (ps : List (Option Bytes)) (status : Status) → Agrees s.parts ps
      → count_filled ps ≡ length ps
      → is_failed status ≡ false
      → (assemble sha256 decrypt decompress ps
            (accepted s (is_compressed sha256 compress encrypt auto_compress payload))
          ≡ (
            some (stored payload s),
            record (accepted s (is_compressed sha256 compress encrypt auto_compress payload)) {
              status = complete;
            },
          ))
        × (validate_proof s.expected_proof (stored payload s).proof_data status ≡ (true, complete))
  unfolding assemble init
  assemble-init sdu auto_compress prefix r rs payload s h pre free made ps status agrees full
        alive =
      let c : Bool = is_compressed sha256 compress encrypt auto_compress payload in
      let first =
        map_until_ok_first sha256 r rs payload (parts_of sdu auto_compress prefix payload) free in
      let hash : s.hash ≡ sha256 (payload ++ s.random_hash) = cc in
      let proof : s.expected_proof ≡ sha256 (payload ++ s.hash) = cc in
      let stream : join_parts ps
          ≡ some (encrypted_data sha256 compress encrypt auto_compress prefix payload) =
        Agrees-join s.parts ps agrees full
        ∙ ap some
            (init-parts sha256 compress encrypt sdu auto_compress prefix (r ∷ rs) payload s h
              made).0 in
      let opened = open_stream_lem auto_compress prefix payload s pre in
      let len : length s.hash ≡ hash_bytes =
        ap length hash ∙ hash_length (payload ++ s.random_hash) in
      (
        rw (assemble, stream, opened) (store_lem payload s c hash),
        validate_proof_lem payload s status len proof alive,
      )
