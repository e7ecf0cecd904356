-- ===== src/Link/Signalling.antt =====
-- Link.signalling_bytes, and the MTU and the mode that link requests and proofs carry.
use reticulum.Prelude.{
  ℕ, ◌+◌, ◌*◌, ◌/◌, ◌%◌, ◌<◌, ◌≡◌, Bytes, [], ◌∷◌, ◌++◌, length, length-append, drop, drop-append,
  Option, none, some, Bool, ltb, ◌==◌, arith, if◌then◌else◌,
}
use reticulum.Link.{key_bytes, sig_bytes, link_mtu_size, mode_aes256_cbc}

-- `mode in Link.ENABLED_MODES`
abbrev pub is_enabled : ℕ → Bool
is_enabled mode = mode == mode_aes256_cbc

-- `(mtu & MTU_BYTEMASK)+(((mode<<5) & MODE_BYTEMASK)<<16)`: 21 bits of the MTU below 3 of the mode.
abbrev pub signalling_value : ℕ → ℕ → ℕ
signalling_value mtu mode = mtu % 0x200000 + mode % 8 * 0x200000

-- Its three bytes; a mode that is not enabled raises.
unfoldable pub signalling_bytes : ℕ → ℕ → Option Bytes
signalling_bytes mtu mode =
    let value = signalling_value mtu mode in
    if is_enabled mode
    then some (value / 0x10000 ∷ value / 0x100 % 0x100 ∷ value % 0x100 ∷ [])
    else none

abbrev pub mtu_of : Bytes → Option ℕ
mtu_of (a ∷ b ∷ c ∷ []) = some ((a * 0x10000 + b * 0x100 + c) % 0x200000)
mtu_of _ = none

abbrev pub mode_of : Bytes → ℕ
mode_of [] = mode_aes256_cbc
mode_of (a ∷ bs) = a / 0x20 % 8

-- Behind `start` bytes, in a packet of that length and three bytes.
unfoldable pub mtu_behind : ℕ → Bytes → Option ℕ
mtu_behind start bs = if length bs == start + link_mtu_size then mtu_of (drop start bs) else none

unfoldable pub mode_behind : ℕ → Bytes → ℕ
mode_behind start bs = if ltb start (length bs) then mode_of (drop start bs) else mode_aes256_cbc

-- Behind the two keys of a link request, and behind the signature and the key of a proof.
abbrev pub lr_start : ℕ
lr_start = key_bytes + key_bytes

abbrev pub lp_start : ℕ
lp_start = sig_bytes + key_bytes

abbrev pub mtu_from_lr_packet : Bytes → Option ℕ
mtu_from_lr_packet bs = mtu_behind lr_start bs

abbrev pub mode_from_lr_packet : Bytes → ℕ
mode_from_lr_packet bs = mode_behind lr_start bs

abbrev pub mtu_from_lp_packet : Bytes → Option ℕ
mtu_from_lp_packet bs = mtu_behind lp_start bs

abbrev pub mode_from_lp_packet : Bytes → ℕ
mode_from_lp_packet bs = mode_behind lp_start bs

-- The three bytes of a value below 2^24, put together.
three_bytes :
    (v : ℕ) → v < 0x1000000 → v / 0x10000 * 0x10000 + v / 0x100 % 0x100 * 0x100 + v % 0x100 ≡ v
three_bytes v h = omega arith

signalling_bytes_enabled :
    (mtu mode : ℕ) (sb : Bytes)
    → signalling_bytes mtu mode ≡ some sb
    → (mode ≡ 1) × (length sb ≡ 3) × (mtu_of sb ≡ some (mtu % 0x200000)) × (mode_of sb ≡ mode)
unfolding signalling_bytes
signalling_bytes_enabled mtu mode sb h =
    let whole = three_bytes (mtu % 0x200000 + 0x200000) (omega arith) in
    let low : (mtu % 0x200000 + 0x200000) % 0x200000 ≡ mtu % 0x200000 = omega arith in
    ground (arith, whole, low)

-- The signalling bytes of an MTU and an enabled mode, behind any bytes, as in a request or a proof, are
-- read as that MTU modulo 2^21 and that mode.
pub mtu_behind-signalling_bytes :
    (start mtu mode : ℕ) (bs sb : Bytes)
    → length bs ≡ start
    → signalling_bytes mtu mode ≡ some sb
    → (mtu_behind start (bs ++ sb) ≡ some (mtu % 0x200000))
      × (mode_behind start (bs ++ sb) ≡ mode)
      × (length (bs ++ sb) ≡ start + link_mtu_size)
unfolding mtu_behind mode_behind
mtu_behind-signalling_bytes start mtu mode bs sb h e =
    let (enabled, three, same_mtu, same_mode) = signalling_bytes_enabled mtu mode sb e in
    let cut : drop start (bs ++ sb) ≡ sb = drop-append start bs sb h in
    let whole : length (bs ++ sb) ≡ start + link_mtu_size =
      omega (arith, length-append bs sb, h, three) in
    ground (arith, cut, whole, same_mtu, same_mode)
