-- ===== src/Crypto/Hkdf.antt =====
-- hkdf of RNS/Cryptography/HKDF.py, over a MAC with 32 bytes.
use reticulum.Prelude.{
  ℕ, zero, suc, ◌+◌, ◌-◌, ◌*◌, ◌/◌, ◌%◌, ◌≤◌, ◌<◌, ◌≡◌, refl, sym, ◌∙◌, Bytes, length,
  length-append, length-take, take, take-take, take-append_agree, replicate, [], ◌∷◌, ◌++◌, Option,
  none, some, Bool, true, false, ltb, le→ltb, All, All-append, All-take, arith, if◌then◌else◌,
}
use reticulum.Prelude.Results.{Result, ok, err}

pub data HkdfError : Type 0 where
  invalid_length empty_material : HkdfError

-- The loop: `count` more rounds, from round `i`, after the block `last`.
unfoldable pub blocks : (Bytes → Bytes → Bytes) → Bytes → Bytes → ℕ → ℕ → Bytes → Bytes
blocks hmac key context zero i last = []
blocks hmac key context (suc count) i last =
    let block = hmac key (last ++ (context ++ ((i + 1) % 0x100) ∷ [])) in
    block ++ blocks hmac key context count (i + 1) block

abbrev pub AreBytes : Bytes → Type 0
AreBytes bytes = All (λ b. b < 256) bytes

abbrev pub is_empty : Bytes → Bool
is_empty [] = true
is_empty (x ∷ xs) = false

abbrev pub salt_or_zeros : Option Bytes → Bytes
salt_or_zeros none = replicate 32 0
salt_or_zeros (some s) = if is_empty s then replicate 32 0 else s

abbrev pub context_or_empty : Option Bytes → Bytes
context_or_empty none = []
context_or_empty (some c) = c

-- ceil(length / hash_len)
abbrev pub rounds : ℕ → ℕ
rounds size = (size + 31) / 32

-- `derive_from == ""` compares bytes with text, which never holds: only None is refused. A length
-- of None is the 0 here, which is refused like it.
unfoldable pub hkdf :
    (Bytes → Bytes → Bytes)
    → ℕ
    → Option Bytes
    → Option Bytes
    → Option Bytes
    → Result HkdfError Bytes
hkdf hmac size derive_from salt context =
    if ltb size 1 then err invalid_length else elim derive_from [
      | none ↦ err empty_material
      | some material ↦
          (let key = hmac (salt_or_zeros salt) material in
            ok (take size (blocks hmac key (context_or_empty context) (rounds size) 0 [])))
    ]

module _ (hmac : Bytes → Bytes → Bytes)
    (mac_length : (k bs : Bytes) → length (hmac k bs) ≡ 32) where
  length-blocks :
      (key context : Bytes) (count i : ℕ) (last : Bytes)
      → length (blocks hmac key context count i last) ≡ count * 32
  unfolding blocks
  length-blocks key context zero i last = refl
  length-blocks key context (suc count) i last =
      let text : Bytes = last ++ (context ++ ((i + 1) % 0x100) ∷ []) in
      let block : Bytes = hmac key text in
      omega (
        arith,
        length-append block (blocks hmac key context count (i + 1) block),
        mac_length key text,
        length-blocks key context count (i + 1) block,
      )

  take-blocks :
      (key context : Bytes) (n m i : ℕ) (last : Bytes) (size : ℕ)
      → n ≤ m
      → size ≤ n * 32
      → take size (blocks hmac key context m i last) ≡ take size (blocks hmac key context n i last)
  unfolding blocks
  take-blocks key context n m i last zero h fits = refl
  take-blocks key context zero m i last (suc size) h fits = absurd (omega arith)
  take-blocks key context (suc n) zero i last (suc size) h fits = absurd (omega arith)
  take-blocks key context (suc n) (suc m) i last (suc size) h fits =
      let text : Bytes = last ++ (context ++ ((i + 1) % 0x100) ∷ []) in
      let block : Bytes = hmac key text in
      take-append_agree (suc size) block _ _ (
        rw (mac_length key text)
          (take-blocks key context n m (i + 1) block (suc size - 32) (omega arith) (omega arith)))

  hkdf_lem :
      (size : ℕ) (material : Bytes) (salt context : Option Bytes)
      → 0 < size
      → hkdf hmac size (some material) salt context
        ≡ ok (
            take size (
              blocks hmac
                (hmac (salt_or_zeros salt) material)
                (context_or_empty context)
                (rounds size)
                0
                []))
  unfolding hkdf
  hkdf_lem size material salt context pos = rw (le→ltb size 1 pos)

  -- Key material of every positive length is derived, whatever the material (empty bytes too), salt
  -- and context; it has that length, and a shorter key is the beginning of a longer one.
  pub hkdf-prefix :
      (small large : ℕ) (material : Bytes) (salt context : Option Bytes)
      → 0 < small
      → small ≤ large
      → (short : Bytes) × (long : Bytes) × (hkdf hmac small (some material) salt context ≡ ok short)
        × (hkdf hmac large (some material) salt context ≡ ok long)
        × (length short ≡ small)
        × (length long ≡ large)
        × (short ≡ take small long)
  hkdf-prefix small large material salt context pos le =
      let key : Bytes = hmac (salt_or_zeros salt) material in
      let rest : Bytes = context_or_empty context in
      let short : Bytes = blocks hmac key rest (rounds small) 0 [] in
      let long : Bytes = blocks hmac key rest (rounds large) 0 [] in
      (
        take small short,
        take large long,
        hkdf_lem small material salt context pos,
        hkdf_lem large material salt context (omega arith),
        omega (arith, length-take small short, length-blocks key rest (rounds small) 0 []),
        omega (arith, length-take large long, length-blocks key rest (rounds large) 0 []),
        sym (
            take-take small large long le
            ∙ take-blocks key rest (rounds small) (rounds large) 0 [] small (omega arith)
                (omega arith)),
      )

  blocks-AreBytes :
      ((k bs : Bytes) → AreBytes (hmac k bs))
      → (key context : Bytes) (count i : ℕ) (last : Bytes)
      → AreBytes (blocks hmac key context count i last)
  unfolding blocks
  blocks-AreBytes mac_bytes key context zero i last = tt
  blocks-AreBytes mac_bytes key context (suc count) i last =
      let text : Bytes = last ++ (context ++ ((i + 1) % 0x100) ∷ []) in
      All-append (λ b. b < 256) (hmac key text) _ (mac_bytes key text)
        (blocks-AreBytes mac_bytes key context count (i + 1) (hmac key text))

  -- Key material is a string of bytes where the MAC is, and as long as it was asked for.
  pub hkdf-AreBytes :
      ((k bs : Bytes) → AreBytes (hmac k bs))
      → (size : ℕ) (material : Bytes) (salt context : Option Bytes) → 0 < size
      → (key : Bytes) × (hkdf hmac size (some material) salt context ≡ ok key)
        × (length key ≡ size)
        × AreBytes key
  hkdf-AreBytes mac_bytes size material salt context pos =
      let key : Bytes = hmac (salt_or_zeros salt) material in
      let bytes : Bytes = blocks hmac key (context_or_empty context) (rounds size) 0 [] in
      (
        take size bytes,
        hkdf_lem size material salt context pos,
        omega (
          arith,
          length-take size bytes,
          length-blocks key (context_or_empty context) (rounds size) 0 [],
        ),
        All-take (λ b. b < 256) size bytes
            (blocks-AreBytes mac_bytes key (context_or_empty context) (rounds size) 0 []),
      )
