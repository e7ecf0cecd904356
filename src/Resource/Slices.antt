-- ===== src/Resource/Slices.antt =====
-- Byte strings cut into parts of one size: `data[i*size:(i+1)*size]` for `i` in a range.
use reticulum.Prelude.{
  ℕ, zero, suc, ◌+◌, ◌-◌, ◌*◌, ◌/◌, ◌≤◌, ◌<◌, ◌≡◌, refl, sym, ap, ◌∙◌, Bytes, List, [], ◌∷◌, ◌++◌,
  length, take, drop, take-all, arith,
}

unfoldable pub slices : ℕ → ℕ → ℕ → Bytes → List Bytes
slices size i zero bs = []
slices size i (suc n) bs = take size (drop (i * size) bs) ∷ slices size (i + 1) n bs

-- `int(math.ceil(length / float(size)))`
abbrev pub ceil_div : ℕ → ℕ → ℕ
ceil_div n size = (n + size - 1) / size

unfoldable pub join : List Bytes → Bytes
join [] = []
join (p ∷ ps) = p ++ join ps

module _ {ℓ} {A : Type ℓ} where
  take-nil : (n : ℕ) → ◌≡◌ {A = List A} (take n []) []
  take-nil zero = refl
  take-nil (suc n) = refl

  drop-nil : (n : ℕ) → ◌≡◌ {A = List A} (drop n []) []
  drop-nil zero = refl
  drop-nil (suc n) = refl

  pub take-add : (m n : ℕ) (xs : List A) → take (m + n) xs ≡ take m xs ++ take n (drop m xs)
  take-add zero n xs = let e : zero + n ≡ n = omega arith in rw e refl
  take-add (suc m) n [] = take-nil (suc m + n) ∙ sym (take-nil n)
  take-add (suc m) n (x ∷ xs) =
      let e : suc m + n ≡ suc (m + n) = omega arith in rw e (ap (◌∷◌ x) (take-add m n xs))

  pub drop-add : (m n : ℕ) (xs : List A) → drop (m + n) xs ≡ drop n (drop m xs)
  drop-add zero n xs = let e : zero + n ≡ n = omega arith in rw e refl
  drop-add (suc m) n [] = drop-nil (suc m + n) ∙ sym (drop-nil n)
  drop-add (suc m) n (x ∷ xs) =
      let e : suc m + n ≡ suc (m + n) = omega arith in rw e (drop-add m n xs)

join-slices :
    (size i n : ℕ) (bs : Bytes) → join (slices size i n bs) ≡ take (n * size) (drop (i * size) bs)
unfolding join slices
join-slices size i zero bs = let none_left : zero * size ≡ 0 = omega arith in rw none_left refl
join-slices size i (suc n) bs =
    let next : (i + 1) * size ≡ i * size + size = grind arith in
    let more : suc n * size ≡ size + n * size = grind arith in
    ap (λ (t : Bytes). take size (drop (i * size) bs) ++ t)
      (join-slices size (i + 1) n bs
        ∙ ap (λ (k : ℕ). take (n * size) (drop k bs)) next
        ∙ ap (take (n * size)) (drop-add (i * size) size bs))
    ∙ sym (take-add size (n * size) (drop (i * size) bs))
    ∙ ap (λ (k : ℕ). take k (drop (i * size) bs)) (sym more)

ceil_div_covers : (n size : ℕ) → 0 < size → n ≤ ceil_div n size * size
ceil_div_covers n size h = grind arith

-- The parts of a byte string, put together again, are the byte string.
pub join-slices_all :
    (size : ℕ) (bs : Bytes) → 0 < size → join (slices size 0 (ceil_div (length bs) size) bs) ≡ bs
join-slices_all size bs h =
    let first : 0 * size ≡ 0 = omega arith in
    join-slices size 0 (ceil_div (length bs) size) bs
    ∙ rw first (take-all (ceil_div (length bs) size * size) bs (ceil_div_covers (length bs) size h))
