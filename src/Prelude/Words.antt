-- ===== src/Prelude/Words.antt =====
-- `struct.pack(">H", n)` and `struct.unpack(">H", bs)`: 16-bit numbers, high byte first.
use reticulum.Prelude.{
  ℕ, ◌+◌, ◌*◌, ◌/◌, ◌%◌, ◌≡◌, Bytes, [], ◌∷◌, ltb, Option, none, some, arith, if◌then◌else◌,
}

abbrev pub u16_bytes : ℕ → Bytes
u16_bytes n = n / 256 ∷ n % 256 ∷ []

abbrev pub u16_value : ℕ → ℕ → ℕ
u16_value hi lo = hi * 256 + lo

-- A number that does not fit raises `struct.error`.
unfoldable pub pack_u16 : ℕ → Option Bytes
pack_u16 n = if ltb n 65536 then some (u16_bytes n) else none

pub u16_value-bytes : (n : ℕ) → u16_value (n / 256) (n % 256) ≡ n
u16_value-bytes n = omega arith
