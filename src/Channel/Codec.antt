-- ===== src/Channel/Codec.antt =====
-- Envelope.pack and Envelope.unpack.
use reticulum.Prelude.{
  ℕ, ◌≡◌, Bytes, length, Option, none, some, ◌∷◌, ◌++◌, true, ◌&&◌, ltb, arith, if◌then◌else◌,
}
use reticulum.Prelude.Results.{Result, ok, err}
use reticulum.Prelude.Words.{u16_bytes, u16_value, u16_value-bytes}
use reticulum.Channel.{Message, Factories, Envelope}

-- The codes of ChannelException, and the other exceptions of these methods: `struct.error`, and
-- whatever the `unpack` of a message raises.
pub data ChannelError : Type 0 where
  no_msg_type invalid_msg_type not_registered link_not_ready already_sent too_big : ChannelError
  struct_error unpack_error : ChannelError

unfoldable pub pack_message : ℕ → Message → Result ChannelError Bytes
pack_message sequence m = elim m.msgtype [
  | none ↦ err no_msg_type
  | some t ↦
      if ltb t 65536 && (ltb sequence 65536 && ltb (length m.payload) 65536)
      then ok (u16_bytes t ++ (u16_bytes sequence ++ (u16_bytes (length m.payload) ++ m.payload)))
      else err struct_error
]

-- The envelope after `pack`, or the exception.
unfoldable pub pack : Envelope → Result ChannelError Envelope
unfolding pack_message
pack e = elim e.message [
  | none ↦ err no_msg_type
  | some m ↦ elim (pack_message e.sequence m) [
    | ok raw ↦ ok (record e { raw = some raw; packed = true })
    | err x ↦ err x
  ]
]

-- The message of the class that is registered for the type; the length field is not looked at.
unfoldable pub make_message : Factories → ℕ → Bytes → Result ChannelError Message
make_message factories t body = elim (factories t) [
  | none ↦ err not_registered
  | some make ↦ elim (make body) [ none ↦ err unpack_error | some m ↦ ok m ]
]

unfoldable pub unpack : Factories → Bytes → Result ChannelError (ℕ × Message)
unfolding make_message
unpack factories (t1 ∷ t0 ∷ s1 ∷ s0 ∷ l1 ∷ l0 ∷ body) =
    elim (make_message factories (u16_value t1 t0) body) [
      | ok m ↦ ok (u16_value s1 s0, m)
      | err x ↦ err x
    ]
unpack factories _ = err struct_error

packed_bytes :
    (sequence t : ℕ) (m : Message) {raw : Bytes}
    → m.msgtype ≡ some t
    → pack_message sequence m ≡ ok raw
    → u16_bytes t ++ (u16_bytes sequence ++ (u16_bytes (length m.payload) ++ m.payload)) ≡ raw
unfolding pack_message
packed_bytes sequence t m et h = ground arith

-- What one end packs the other unpacks: the sequence number, and the message that the registered
-- class reads from the same payload.
pub unpack-pack_message :
    (factories : Factories) (sequence t : ℕ) (m m' : Message) (make : Bytes → Option Message)
    {raw : Bytes}
    → m.msgtype ≡ some t
    → factories t ≡ some make
    → make m.payload ≡ some m'
    → pack_message sequence m ≡ ok raw
    → unpack factories raw ≡ ok (sequence, m')
unfolding pack_message unpack make_message
unpack-pack_message factories sequence t m m' make et ef em h =
    rw (← packed_bytes sequence t m et h)
      (ground (arith, u16_value-bytes t, u16_value-bytes sequence))
