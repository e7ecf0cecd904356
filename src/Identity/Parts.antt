-- ===== src/Identity/Parts.antt =====
-- The parts of an announce, joined and taken apart again by Identity.validate_announce.
use reticulum.Prelude.{
  ℕ, zero, suc, ◌+◌, ◌≡◌, inl, inr, refl, sym, ap, ◌∙◌, Bytes, length, take, take-append, drop,
  drop-append, drop-all, [], ◌∷◌, ◌++◌, Bool-cases, ltb, ltb→le, arith,
}
use reticulum.Identity.{keysize, name_hash_len, sig_len, ratchetsize}
use reticulum.Identity.Announce.{
  AnnounceFields, with_ratchet, without_ratchet, slice, app_data_behind,
}

drop_past :
    (n b : ℕ) (front rest : Bytes) → length front + b ≡ n → drop n (front ++ rest) ≡ drop b rest
drop_past n b [] rest h = ap (λ m. drop m rest) (omega (arith, h))
drop_past zero b (x ∷ front) rest h = absurd (omega (arith, h))
drop_past (suc n) b (x ∷ front) rest h = drop_past n b front rest (omega (arith, h))

behind-drop : (start : ℕ) (payload : Bytes) → app_data_behind start payload ≡ drop start payload
behind-drop start payload = elim (Bool-cases (ltb start (length payload))) [
  | inl more ↦ rw more refl
  | inr exact ↦ rw exact (sym (drop-all start payload (ltb→le _ _ exact)))
]

-- The parts of an announce.
abbrev pub joined : AnnounceFields → Bytes
joined f =
    f.public_key ++ (f.name_hash ++ (f.random_hash ++ (f.ratchet ++ (f.signature ++ f.app_data))))

abbrev pub Sized : AnnounceFields → Type 0
Sized f =
    (length f.public_key ≡ keysize)
    × (length f.name_hash ≡ name_hash_len)
    × (length f.random_hash ≡ 10)
    × (length f.signature ≡ sig_len)

module _ (f : AnnounceFields) (sized : Sized f) where
  behind_key : Bytes
  behind_key = f.name_hash ++ (f.random_hash ++ (f.ratchet ++ (f.signature ++ f.app_data)))

  behind_name : Bytes
  behind_name = f.random_hash ++ (f.ratchet ++ (f.signature ++ f.app_data))

  drop-key : drop 64 (joined f) ≡ behind_key
  unfolding behind_key
  drop-key = drop-append 64 f.public_key behind_key sized.0

  drop-name : drop 74 (joined f) ≡ behind_name
  unfolding behind_name
  drop-name =
      drop_past 74 10 f.public_key (f.name_hash ++ behind_name) (omega (arith, sized.0))
      ∙ drop-append 10 f.name_hash behind_name sized.1

  drop-random : drop 84 (joined f) ≡ f.ratchet ++ (f.signature ++ f.app_data)
  drop-random =
      drop_past 84 20 f.public_key _ (omega (arith, sized.0))
      ∙ drop_past 20 10 f.name_hash _ (omega (arith, sized.1))
      ∙ drop-append 10 f.random_hash _ sized.2

  drop_past_random :
      (m n : ℕ) → 84 + n ≡ m → drop m (joined f) ≡ drop n (f.ratchet ++ (f.signature ++ f.app_data))
  drop_past_random m n h =
      drop_past m (20 + n) f.public_key _ (omega (arith, sized.0, h))
      ∙ drop_past (20 + n) (10 + n) f.name_hash _ (omega (arith, sized.1))
      ∙ drop_past (10 + n) n f.random_hash _ (omega (arith, sized.2))

  public_key-joined : take 64 (joined f) ≡ f.public_key
  unfolding behind_key
  public_key-joined = take-append 64 f.public_key behind_key sized.0

  name_hash-joined : slice 64 10 (joined f) ≡ f.name_hash
  unfolding behind_key
  name_hash-joined = ap (take 10) drop-key ∙ take-append 10 f.name_hash _ sized.1

  random_hash-joined : slice 74 10 (joined f) ≡ f.random_hash
  unfolding behind_name
  random_hash-joined = ap (take 10) drop-name ∙ take-append 10 f.random_hash _ sized.2

  pub parts_with_ratchet : length f.ratchet ≡ ratchetsize → with_ratchet (joined f) ≡ f
  parts_with_ratchet ht =
      let ratchet : slice 84 32 (joined f) ≡ f.ratchet =
        ap (take 32) drop-random ∙ take-append 32 f.ratchet _ ht in
      let signature : slice 116 64 (joined f) ≡ f.signature =
        ap (take 64) (drop_past_random 116 32 refl ∙ drop-append 32 f.ratchet _ ht)
        ∙ take-append 64 f.signature _ sized.3 in
      let app_data : app_data_behind 180 (joined f) ≡ f.app_data =
        behind-drop 180 (joined f)
        ∙ drop_past_random 180 96 refl
        ∙ drop_past 96 64 f.ratchet _ (omega (arith, ht))
        ∙ drop-append 64 f.signature f.app_data sized.3 in
      λ i. record {
        public_key = public_key-joined i;
        name_hash = name_hash-joined i;
        random_hash = random_hash-joined i;
        ratchet = ratchet i;
        signature = signature i;
        app_data = app_data i;
      }

  pub parts_without_ratchet : f.ratchet ≡ [] → without_ratchet (joined f) ≡ f
  parts_without_ratchet ht =
      let empty : [] ≡ f.ratchet = sym ht in
      let signed : drop 84 (joined f) ≡ f.signature ++ f.app_data =
        drop-random ∙ ap (λ r. r ++ (f.signature ++ f.app_data)) ht in
      let signature : slice 84 64 (joined f) ≡ f.signature =
        ap (take 64) signed ∙ take-append 64 f.signature _ sized.3 in
      let app_data : app_data_behind 148 (joined f) ≡ f.app_data =
        behind-drop 148 (joined f)
        ∙ drop_past_random 148 64 refl
        ∙ ap (λ r. drop 64 (r ++ (f.signature ++ f.app_data))) ht
        ∙ drop-append 64 f.signature f.app_data sized.3 in
      λ i. record {
        public_key = public_key-joined i;
        name_hash = name_hash-joined i;
        random_hash = random_hash-joined i;
        ratchet = empty i;
        signature = signature i;
        app_data = app_data i;
      }
