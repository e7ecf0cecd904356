-- ===== src/Buffer/Stream.antt =====
-- StreamDataMessage: its constructor, pack and unpack. bz2 is a parameter: what compressing gives,
-- and what decompressing gives unless it raises.
use reticulum.Prelude.{
  ℕ, ◌+◌, ◌≤◌, ◌<◌, bit_and, bit_or, ◌≡◌, refl, ap, ◌∙◌, Bytes, [], ◌∷◌, ◌++◌, length, Bool, true,
  false, ◌&&◌, ltb, lt→ltb, ◌==◌, Option, none, some, arith, if◌then◌else◌,
}
use reticulum.Prelude.Tables.{all_below, all_below_sound}
use reticulum.Prelude.Words.{u16_value, pack_u16, u16_bytes, u16_value-bytes}
use reticulum.Prelude.Results.{Result, ok, err}

-- STREAM_ID_MAX
abbrev pub stream_id_max : ℕ
stream_id_max = 0x3fff

-- OVERHEAD, and MAX_DATA_LEN with the MDU of a link, 431.
abbrev pub overhead : ℕ
overhead = 2 + 6

abbrev pub max_data_len : ℕ
max_data_len = 423

pub record StreamDataMessage : Type 0 where
  pub stream_id : Option ℕ
  pub compressed : Bool
  pub payload : Bytes
  pub eof : Bool

pub data StreamError : Type 0 where
  value_error struct_error os_error channel_error : StreamError

abbrev pub is_too_big : Option ℕ → Bool
is_too_big none = false
is_too_big (some id) = ltb stream_id_max id

unfoldable pub init : Option ℕ → Bytes → Bool → Bool → Result StreamError StreamDataMessage
init stream_id payload eof compressed =
    if is_too_big stream_id
    then err value_error
    else ok
        (record { stream_id = stream_id; compressed = compressed; payload = payload; eof = eof })

unfoldable pub header_val : ℕ → Bool → Bool → ℕ
header_val id eof compressed =
    bit_or (bit_or (bit_and 0x3fff id) (if eof then 0x8000 else 0x0000))
      (if compressed then 0x4000 else 0x0000)

abbrev packed : Option Bytes → Bytes → Result StreamError Bytes
packed none payload = err struct_error
packed (some header) payload = ok (header ++ payload)

unfoldable pub pack : StreamDataMessage → Result StreamError Bytes
unfolding header_val pack_u16
pack m = elim m.stream_id [
  | none ↦ err value_error
  | some id ↦ packed (pack_u16 (header_val id m.eof m.compressed)) m.payload
]

module _ (decompress : Bytes → Option Bytes) where
  abbrev pub expand : Bool → Bytes → Option Bytes
  expand false bs = some bs
  expand true bs = decompress bs

  unfoldable pub assemble : ℕ → Bool → Bool → Bytes → Result StreamError StreamDataMessage
  assemble id eof compressed bs = elim (expand compressed bs) [
    | none ↦ err os_error
    | some payload ↦
        ok (record { stream_id = some id; compressed = compressed; payload = payload; eof = eof })
  ]

  unpacked : ℕ → Bytes → Result StreamError StreamDataMessage
  unfolding assemble
  unpacked header bs =
      assemble (bit_and header 0x3fff) (ltb 0 (bit_and 0x8000 header))
        (ltb 0 (bit_and 0x4000 header)) bs

  unfoldable pub unpack : Bytes → Result StreamError StreamDataMessage
  unfolding unpacked
  unpack [] = err struct_error
  unpack (hi ∷ []) = err struct_error
  unpack (hi ∷ lo ∷ bs) = unpacked (u16_value hi lo) bs

-- What the four kinds of header say of every stream id.
abbrev same_bool : Bool → Bool → Bool
same_bool true b = b
same_bool false true = false
same_bool false false = true

abbrev fits : ℕ → Bool → Bool → Bool
fits id eof compressed =
    let v = header_val id eof compressed in
    ltb v 65536
    && (bit_and v 0x3fff == id
        && (same_bool (ltb 0 (bit_and 0x8000 v)) eof
            && same_bool (ltb 0 (bit_and 0x4000 v)) compressed))

header_table :
    all_below 16384 (λ id.
      fits id false false && (fits id true false && (fits id false true && fits id true true)))
    ≡ true
unfolding all_below header_val
header_table = refl

all_kinds : ℕ → Bool
all_kinds id =
    fits id false false && (fits id true false && (fits id false true && fits id true true))

and_all :
    (a b c d : Bool)
    → (a && (b && (c && d))) ≡ true
    → (a ≡ true) × (b ≡ true) × (c ≡ true) × (d ≡ true)
and_all a b c d h = ground arith

kinds_fit :
    (id : ℕ)
    → id ≤ stream_id_max
    → (fits id false false ≡ true)
      × (fits id true false ≡ true)
      × (fits id false true ≡ true)
      × (fits id true true ≡ true)
unfolding all_kinds
kinds_fit id h =
    and_all (fits id false false) (fits id true false) (fits id false true) (fits id true true)
      (all_below_sound 16384 all_kinds header_table id (omega arith))

header_fits : (id : ℕ) (eof compressed : Bool) → id ≤ stream_id_max → fits id eof compressed ≡ true
header_fits id false false h = (kinds_fit id h).0
header_fits id true false h = (kinds_fit id h).1
header_fits id false true h = (kinds_fit id h).2
header_fits id true true h = (kinds_fit id h).3

fields :
    (id : ℕ) (eof compressed : Bool)
    → id ≤ stream_id_max
    → (header_val id eof compressed < 65536)
      × (bit_and (header_val id eof compressed) 0x3fff ≡ id)
      × (ltb 0 (bit_and 0x8000 (header_val id eof compressed)) ≡ eof)
      × (ltb 0 (bit_and 0x4000 (header_val id eof compressed)) ≡ compressed)
fields id eof compressed h = ground (arith, header_fits id eof compressed h)

assemble_lem :
    (decompress : Bytes → Option Bytes) (id : ℕ) (eof compressed : Bool) (bs expanded : Bytes)
    → expand decompress compressed bs ≡ some expanded
    → assemble decompress id eof compressed bs
      ≡ ok (record { stream_id = some id; compressed = compressed; payload = expanded; eof = eof })
unfolding assemble
assemble_lem decompress id eof compressed bs expanded h = rw (assemble, h) refl

unpacked_lem :
    (decompress : Bytes → Option Bytes) (id : ℕ) (eof compressed : Bool) (bs : Bytes)
    → id ≤ stream_id_max
    → unpacked decompress (header_val id eof compressed) bs
      ≡ assemble decompress id eof compressed bs
unfolding unpacked
unpacked_lem decompress id eof compressed bs small =
    let (lt, same_id, same_eof, same_compressed) = fields id eof compressed small in cc

-- A message with a stream id of at most 0x3fff packs, in two bytes more than its payload, and
-- unpacks to its stream id, its flags and its payload: expanded by bz2, where it is marked as
-- compressed.
pub unpack-pack :
    (decompress : Bytes → Option Bytes) (m : StreamDataMessage) (id : ℕ) (expanded : Bytes)
    → m.stream_id ≡ some id
    → id ≤ stream_id_max
    → expand decompress m.compressed m.payload ≡ some expanded
    → (raw : Bytes) × (pack m ≡ ok raw)
      × (length raw ≡ 2 + length m.payload)
      × (unpack decompress raw ≡ ok (record m { payload = expanded }))
unfolding pack unpack pack_u16
unpack-pack decompress m id expanded here small opened =
    let v = header_val id m.eof m.compressed in
    let (lt, same_id, same_eof, same_compressed) = fields id m.eof m.compressed small in
    (
      u16_bytes v ++ m.payload,
      rw (here, lt→ltb v 65536 lt) refl,
      omega arith,
      ap (λ header. unpacked decompress header m.payload) (u16_value-bytes v)
          ∙ unpacked_lem decompress id m.eof m.compressed m.payload small
          ∙ assemble_lem decompress id m.eof m.compressed m.payload expanded opened
          ∙ ap ok (rw here refl),
    )
