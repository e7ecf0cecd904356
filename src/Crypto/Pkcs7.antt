-- ===== src/Crypto/Pkcs7.antt =====
-- PKCS7.pad and PKCS7.unpad.
use native.Mathlib.Nat.{div-add-mod, mod-lt, mul-mod_right}
use reticulum.Prelude.{
  ℕ, zero, suc, ◌+◌, ◌-◌, ◌*◌, ◌/◌, ◌%◌, ◌≤◌, ◌<◌, ◌≡◌, refl, sym, ap, ◌∙◌, Bytes, length,
  length-append, length-replicate, take, take-append, replicate, [], ◌∷◌, ◌++◌, Option, none, some,
  ltb, lt→ltb, le→ltb, arith, if◌then◌else◌,
}
use reticulum.Prelude.Results.{Result, ok, err}

-- `bytes([n])` of a block size above 255 raises; `data[-1]` of nothing raises.
pub data PadError : Type 0 where
  not_a_byte empty invalid_padding : PadError

unfoldable pub pad : ℕ → Bytes → Result PadError Bytes
pad bs payload =
    let n = bs - length payload % bs in
    if ltb n 256 then ok (payload ++ replicate n n) else err not_a_byte

unfoldable pub last? : Bytes → Option ℕ
last? [] = none
last? (x ∷ []) = some x
last? (x ∷ y ∷ ys) = last? (y ∷ ys)

-- `data[:l-n]` counts from the end where n is above l: it is then `data[:2*l-n]`, or empty.
unfoldable pub cut : ℕ → Bytes → Bytes
cut n payload =
    let l = length payload in if ltb l n then take (l + l - n) payload else take (l - n) payload

unfoldable pub unpad : ℕ → Bytes → Result PadError Bytes
unfolding cut last?
unpad bs payload = elim (last? payload) [
  | none ↦ err empty
  | some n ↦ if ltb bs n then err invalid_padding else ok (cut n payload)
]

last?-replicate : (xs : Bytes) (n v : ℕ) → last? (xs ++ replicate (suc n) v) ≡ some v
unfolding last?
last?-replicate [] zero v = refl
last?-replicate [] (suc n) v = last?-replicate [] n v
last?-replicate (x ∷ []) n v = last?-replicate [] n v
last?-replicate (x ∷ y ∷ ys) n v = last?-replicate (y ∷ ys) n v

cut-append : (xs ys : Bytes) → cut (length ys) (xs ++ ys) ≡ xs
unfolding cut
cut-append xs ys =
    ground (arith, length-append xs ys, take-append (length (xs ++ ys) - length ys) xs ys)

whole_blocks : (l bs : ℕ) → 0 < bs → (l + (bs - l % bs)) % bs ≡ 0
whole_blocks l bs pos = ap (λ (t : ℕ). t % bs) (split l bs pos) ∙ mul-mod_right bs (l / bs + 1)
  where
    split : (l bs : ℕ) → 0 < bs → l + (bs - l % bs) ≡ bs * (l / bs + 1)
    split l bs pos = grind (arith, div-add-mod l bs, mod-lt l pos)

-- Padding adds between 1 and a block of bytes, up to a whole number of blocks.
pub pad-length :
    (bs : ℕ) (payload : Bytes) {padded : Bytes}
    → 0 < bs
    → pad bs payload ≡ ok padded
    → (length padded % bs ≡ 0)
      × (length payload < length padded)
      × (length padded ≤ length payload + bs)
unfolding pad
pad-length bs payload {padded} pos h =
    let n : ℕ = bs - length payload % bs in
    let made : payload ++ replicate n n ≡ padded = ground arith in
    rw (← made, length-append payload (replicate n n), length-replicate n n)
      (
        whole_blocks (length payload) bs pos,
        omega (arith, mod-lt (length payload) pos),
        omega arith,
      )

unpad-last :
    (bs : ℕ) (padded : Bytes) (n : ℕ)
    → last? padded ≡ some n
    → n ≤ bs
    → unpad bs padded ≡ ok (cut n padded)
unfolding unpad
unpad-last bs padded n e fits = rw (e, unpad) (rw (le→ltb bs n fits))

unpad_lem :
    (bs : ℕ) (payload : Bytes) (n : ℕ)
    → 0 < n
    → n ≤ bs
    → unpad bs (payload ++ replicate n n) ≡ ok payload
unpad_lem bs payload zero pos fits = absurd (omega arith)
unpad_lem bs payload (suc n) pos fits =
    let tail : Bytes = replicate (suc n) (suc n) in
    unpad-last bs (payload ++ tail) (suc n) (last?-replicate payload n (suc n)) fits
    ∙ ap ok (
        ap (λ k. cut k (payload ++ tail)) (sym (length-replicate (suc n) (suc n)))
        ∙ cut-append payload tail)

-- Removing the padding gives the bytes back, for every block size that a byte can hold.
pub unpad-pad :
    (bs : ℕ) (payload : Bytes)
    → 0 < bs
    → bs < 256
    → (padded : Bytes) × (pad bs payload ≡ ok padded) × (unpad bs padded ≡ ok payload)
unpad-pad bs payload pos small =
    let n : ℕ = bs - length payload % bs in
    (
      payload ++ replicate n n,
      unfold pad in rw (lt→ltb n 256 (omega arith)),
      unpad_lem bs payload n (omega (arith, mod-lt (length payload) pos)) (omega arith),
    )
