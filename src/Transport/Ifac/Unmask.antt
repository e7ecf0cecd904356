-- ===== src/Transport/Ifac/Unmask.antt =====
-- The two loops over the bytes of a packet, in Transport.transmit and Transport.inbound, that apply
-- the mask of an interface access code.
use reticulum.Prelude.{
  ℕ, suc, ◌+◌, ◌-◌, ◌≤◌, ◌<◌, ◌≡◌, refl, ap, bit_and, bit_or, bit_xor, Bytes, length, take, true,
  false, Option, none, some, [], ◌∷◌, ◌==◌, ==_iff, ne→==, le→leb, ltb→lt, ltb→le, Bool-cases, inl,
  inr, ◌||◌, leb, ltb, arith, if◌then◌else◌,
}
use reticulum.Crypto.Hkdf.{AreBytes}
use reticulum.Prelude.Tables.{all_below, all_below_sound}

-- `byte ^ mask[i]`, which raises where the mask is too short.
abbrev pub masked : ℕ → Option ℕ → Option ℕ
masked byte none = none
masked byte (some m) = some (bit_xor byte m)

abbrev pub with_flag : Option ℕ → Option ℕ
with_flag none = none
with_flag (some byte) = some (bit_or byte 0x80)

unfoldable pub transmit_byte : ℕ → ℕ → ℕ → Option ℕ → Option ℕ
transmit_byte ifac_size i byte m =
    if i == 0
    then with_flag (masked byte m)
    else if (i == 1) || ltb (ifac_size + 1) i
    then masked byte m
    else some byte

unfoldable pub inbound_byte : ℕ → ℕ → ℕ → Option ℕ → Option ℕ
inbound_byte ifac_size i byte m =
    if leb i 1 || ltb (ifac_size + 1) i then masked byte m else some byte

abbrev first_of : Bytes → Option ℕ
first_of [] = none
first_of (x ∷ xs) = some x

abbrev rest_of : Bytes → Bytes
rest_of [] = []
rest_of (x ∷ xs) = xs

abbrev pub prepend : Option ℕ → Option Bytes → Option Bytes
prepend none bytes = none
prepend (some byte) none = none
prepend (some byte) (some bytes) = some (byte ∷ bytes)

-- The loop over `raw` with its counter `i`; the mask given is `mask[i:]`.
unfoldable pub each_byte : (ℕ → ℕ → Option ℕ → Option ℕ) → ℕ → Bytes → Bytes → Option Bytes
each_byte f i [] mask = some []
each_byte f i (byte ∷ raw) mask =
    prepend (f i byte (first_of mask)) (each_byte f (suc i) raw (rest_of mask))

xor_table : all_below 256 (λ b. all_below 256 (λ m. bit_xor (bit_xor b m) m == b)) ≡ true
unfolding all_below
xor_table = refl

-- Masking a byte twice gives it back.
pub xor_cancel : (b m : ℕ) → b < 256 → m < 256 → bit_xor (bit_xor b m) m ≡ b
xor_cancel b m hb hm = (==_iff _ _).0 (
    all_below_sound 256 (λ m. bit_xor (bit_xor b m) m == b)
      (all_below_sound 256 (λ b. all_below 256 (λ m. bit_xor (bit_xor b m) m == b)) xor_table b hb)
      m hm)

first_table :
    all_below 128 (λ b.
      all_below 256 (λ m. bit_and (bit_xor (bit_or (bit_xor (bit_or b 0x80) m) 0x80) m) 0x7f == b))
    ≡ true
unfolding all_below
first_table = refl

-- The first byte comes back too, its highest bit clear.
pub first_cancel :
    (b m : ℕ)
    → b < 128
    → m < 256
    → bit_and (bit_xor (bit_or (bit_xor (bit_or b 0x80) m) 0x80) m) 0x7f ≡ b
first_cancel b m hb hm = (==_iff _ _).0 (
    all_below_sound 256
      (λ m. bit_and (bit_xor (bit_or (bit_xor (bit_or b 0x80) m) 0x80) m) 0x7f == b)
      (all_below_sound 128
        (λ b.
          all_below 256
            (λ m. bit_and (bit_xor (bit_or (bit_xor (bit_or b 0x80) m) 0x80) m) 0x7f == b))
        first_table b hb)
      m hm)

flag_table :
    all_below 128
      (λ b. all_below 256 (λ m. bit_and (bit_or (bit_xor (bit_or b 0x80) m) 0x80) 0x80 == 0x80))
    ≡ true
unfolding all_below
flag_table = refl

pub flag_set :
    (b m : ℕ)
    → b < 128
    → m < 256
    → (bit_and (bit_or (bit_xor (bit_or b 0x80) m) 0x80) 0x80 == 0x80) ≡ true
flag_set b m hb hm =
    all_below_sound 256 (λ m. bit_and (bit_or (bit_xor (bit_or b 0x80) m) 0x80) 0x80 == 0x80)
      (all_below_sound 128
        (λ b. all_below 256 (λ m. bit_and (bit_or (bit_xor (bit_or b 0x80) m) 0x80) 0x80 == 0x80))
        flag_table b hb)
      m hm

unmask_byte :
    (size i b m : ℕ)
    → 2 ≤ i
    → b < 256
    → m < 256
    → (c : ℕ) × (transmit_byte size i b (some m) ≡ some c)
      × (inbound_byte size i c (some m) ≡ some b)
      × ((i ≤ size + 1) → c ≡ b)
unfolding transmit_byte inbound_byte
unmask_byte size i b m hi hb hm = elim (Bool-cases (ltb (size + 1) i)) [
  | inl past ↦
      let gt : size + 1 < i = ltb→lt _ _ past in
      (
        bit_xor b m,
        rw (transmit_byte, ne→== i 0 (λ e. omega arith), ne→== i 1 (λ e. omega arith), past) refl,
        rw (inbound_byte, le→leb i 1 (omega arith), past) (ap some (xor_cancel b m hb hm)),
        λ le. absurd (omega arith),
      )
  | inr within ↦ (
    b,
    rw (transmit_byte, ne→== i 0 (λ e. omega arith), ne→== i 1 (λ e. omega arith), within) refl,
    rw (inbound_byte, le→leb i 1 (omega arith), within) refl,
    λ le. refl,
  )
]

take_next :
    (size i b c : ℕ) (out bytes : Bytes)
    → ((i ≤ size + 1) → c ≡ b)
    → take (size + 2 - suc i) out ≡ take (size + 2 - suc i) bytes
    → take (size + 2 - i) (c ∷ out) ≡ take (size + 2 - i) (b ∷ bytes)
take_next size i b c out bytes same code = elim (Bool-cases (ltb (size + 1) i)) [
  | inr within ↦
      let le : i ≤ size + 1 = ltb→le _ _ within in
      let step : size + 2 - i ≡ suc (size + 2 - suc i) = omega arith in
      rw (step, same le, code) refl
  | inl past ↦
      let gt : size + 1 < i = ltb→lt _ _ past in
      let none_left : size + 2 - i ≡ 0 = omega arith in rw none_left refl
]

clear_table : all_below 128 (λ b. bit_and b 0x80 == 0) ≡ true
unfolding all_below
clear_table = refl

pub flag_clear : (b : ℕ) → b < 128 → (bit_and b 0x80 == 0x80) ≡ false
flag_clear b h =
    let low : bit_and b 0x80 ≡ 0 =
      (==_iff _ _).0 (all_below_sound 128 (λ b. bit_and b 0x80 == 0) clear_table b h) in
    rw low refl

-- From the third byte on, what the sender masks the receiver unmasks, and the code itself is left
-- as it is.
pub unmask_rest :
    (size i : ℕ) (bytes mask : Bytes)
    → 2 ≤ i
    → AreBytes bytes
    → AreBytes mask
    → length bytes ≤ length mask
    → (out : Bytes) × (each_byte (transmit_byte size) i bytes mask ≡ some out)
      × (each_byte (inbound_byte size) i out mask ≡ some bytes)
      × (length out ≡ length bytes)
      × (take (size + 2 - i) out ≡ take (size + 2 - i) bytes)
unfolding each_byte
unmask_rest size i [] mask hi hb hm le = ([], refl, refl, refl, refl)
unmask_rest size i (b ∷ bytes) [] hi hb hm le = absurd (omega arith)
unmask_rest size i (b ∷ bytes) (m ∷ mask) hi (hb, hbs) (hm, hms) le =
    let (out, sent, received, same_length, code) =
      unmask_rest size (suc i) bytes mask (omega arith) hbs hms (omega arith) in
    let (c, masks, unmasks, same) = unmask_byte size i b m hi hb hm in
    (
      c ∷ out,
      rw (masks, sent) refl,
      rw (unmasks, received) refl,
      ap suc same_length,
      take_next size i b c out bytes same code,
    )
