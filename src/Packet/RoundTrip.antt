-- ===== src/Packet/RoundTrip.antt =====
-- What `unpack` accepts, and that it reads back what `pack` wrote.
use mathlib.Core.List.{append_assoc}
use reticulum.Prelude.{
  ℕ, zero, suc, ◌≤◌, ◌<◌, ◌≡◌, ◌≢◌, refl, ap, ◌∙◌, inl, inr, Bool-cases, Bytes, length, drop,
  get_elem?, Option, none, some, [], ◌∷◌, ◌++◌, List, Bool, true, false, leb, le→ltb, ◌==◌, arith,
  if◌then◌else◌, take-append, drop-append, length-append,
}
use reticulum.Prelude.Results.{ok}
use reticulum.Packet.{Packet, header_1, header_2, lr_proof, dst_len}
use reticulum.Packet.Flags.{
  unpack_flags, unpack_flags-pack_bits, pack_bits-lt, get_packed_flags, flag_kind,
}
use reticulum.Packet.Hash.{get_hash}
use reticulum.Packet.Wire.{wire, sent_ciphertext, outcome, pack-wire}
use reticulum.Packet.Pack.{pack, unpack}

-- The length that a packet needs: the two header bytes, one or two addresses, and the context.
abbrev pub is_complete : Bytes → Bool
is_complete [] = false
is_complete (flags ∷ rest) =
    if (unpack_flags flags).header_type == header_2
    then leb 35 (length (flags ∷ rest))
    else leb 19 (length (flags ∷ rest))

get_elem?-some :
    {A : Type 0} (xs : List A) (i : ℕ) → i < length xs → (a : A) × (get_elem? xs i ≡ some a)
get_elem?-some [] i h = absurd (omega arith)
get_elem?-some (x ∷ xs) zero h = (x, refl)
get_elem?-some (x ∷ xs) (suc i) h = get_elem?-some xs i (omega arith)

get_elem?-none : {A : Type 0} (xs : List A) (i : ℕ) → length xs ≤ i → get_elem? xs i ≡ none
get_elem?-none [] i h = refl
get_elem?-none (x ∷ xs) zero h = absurd (omega arith)
get_elem?-none (x ∷ xs) (suc i) h = get_elem?-none xs i (omega arith)

module _ (sha256 : Bytes → Bytes) where
  unpack_raw :
      (p : Packet) (raw : Bytes) → (unpack sha256 (record p { raw = raw })).0 ≡ is_complete raw
  unfolding unpack get_hash
  unpack_raw p [] = refl
  unpack_raw p (flags ∷ []) = ground arith
  unpack_raw p (flags ∷ hops ∷ rest) = ground (
    arith,
    get_elem?-some rest 32,
    get_elem?-some rest 16,
    get_elem?-none rest 32,
    get_elem?-none rest 16,
  )

  -- `unpack` accepts a packet exactly if its bytes reach past the context byte of its header type.
  pub unpack-is_complete : (p : Packet) → (unpack sha256 p).0 ≡ is_complete p.raw
  unpack-is_complete p = unpack_raw p p.raw

get_elem?-append :
    {A : Type 0} (n : ℕ) (xs : List A) (y : A) (ys : List A)
    → length xs ≡ n
    → get_elem? (xs ++ y ∷ ys) n ≡ some y
get_elem?-append zero [] y ys h = refl
get_elem?-append zero (x ∷ xs) y ys h = absurd (omega arith)
get_elem?-append (suc n) [] y ys h = absurd (omega arith)
get_elem?-append (suc n) (x ∷ xs) y ys h = get_elem?-append n xs y ys (omega arith)

drop-append_next :
    {A : Type 0} (n : ℕ) (xs : List A) (y : A) (ys : List A)
    → length xs ≡ n
    → drop (suc n) (xs ++ y ∷ ys) ≡ ys
drop-append_next zero [] y ys h = refl
drop-append_next zero (x ∷ xs) y ys h = absurd (omega arith)
drop-append_next (suc n) [] y ys h = absurd (omega arith)
drop-append_next (suc n) (x ∷ xs) y ys h = drop-append_next n xs y ys (omega arith)

-- The types that fit the flag byte, and flags that were made from them.
pub record IsTyped (p : Packet) : Type 0 where
  pub header : p.header_type < 2
  pub flag : p.context_flag < 2
  pub transport : p.transport_type < 2
  pub kind : p.destination.kind < 4
  pub packet : p.packet_type < 4
  pub made : p.flags ≡ get_packed_flags p

-- The fields that the far end reads, for a packet with addresses `t` and `d` and ciphertext `c`.
abbrev pub read_back : Packet → Packet → Option Bytes → Bytes → Bytes → Packet
read_back q p t d c = record q {
  flags = p.flags;
  hops = p.hops;
  header_type = p.header_type;
  context_flag = p.context_flag;
  transport_type = p.transport_type;
  destination_type = flag_kind p;
  packet_type = p.packet_type;
  transport_id = t;
  destination_hash = d;
  context = p.context;
  payload = c;
  packed = false;
}

fields_lem :
    (p : Packet)
    → IsTyped p
    → unpack_flags p.flags ≡ record {
      header_type = p.header_type;
      context_flag = p.context_flag;
      transport_type = p.transport_type;
      destination_type = flag_kind p;
      packet_type = p.packet_type;
    }
unfolding get_packed_flags
fields_lem p ty =
    let bits = λ (k : ℕ).
      unpack_flags-pack_bits p.header_type p.context_flag p.transport_type k p.packet_type in
    elim (Bool-cases (p.context == lr_proof)) [
      | inl e ↦ rw (ty.made, e) (bits 3 ty.header ty.flag ty.transport (omega arith) ty.packet)
      | inr e ↦ rw (ty.made, e) (bits _ ty.header ty.flag ty.transport ty.kind ty.packet)
    ]

module _ (sha256 : Bytes → Bytes) where
  unpack_1 :
      (p q : Packet) (d c : Bytes)
      → IsTyped p
      → p.header_type ≡ header_1
      → length d ≡ dst_len
      → unpack sha256 (record q { raw = wire p.flags p.hops d p.context c }) ≡ (
        true,
        record (read_back q p none d c) {
          raw = wire p.flags p.hops d p.context c;
          packet_hash = get_hash sha256 p.header_type (wire p.flags p.hops d p.context c);
        },
      )
  unfolding unpack get_hash
  unpack_1 p q d c ty h1 ld = ground (
    arith,
    fields_lem p ty,
    get_elem?-append 16 d p.context c ld,
    take-append 16 d (p.context ∷ c) ld,
    drop-append_next 16 d p.context c ld,
  )

  unpack_2 :
      (p q : Packet) (t d c : Bytes)
      → IsTyped p
      → p.header_type ≡ header_2
      → length t ≡ dst_len
      → length d ≡ dst_len
      → unpack sha256 (record q { raw = wire p.flags p.hops (t ++ d) p.context c }) ≡ (
        true,
        record (read_back q p (some t) d c) {
          raw = wire p.flags p.hops (t ++ d) p.context c;
          packet_hash = get_hash sha256 p.header_type (wire p.flags p.hops (t ++ d) p.context c);
        },
      )
  unfolding unpack get_hash
  unpack_2 p q t d c ty h2 lt ld = ground (
    arith,
    fields_lem p ty,
    append_assoc t d (p.context ∷ c),
    rw (append_assoc t d (p.context ∷ c)) at
        (get_elem?-append 32 (t ++ d) p.context c (omega (arith, length-append t d))),
    take-append 16 t (d ++ p.context ∷ c) lt,
    drop-append 16 t (d ++ p.context ∷ c) lt,
    take-append 16 d (p.context ∷ c) ld,
    rw (append_assoc t d (p.context ∷ c)) at
        (drop-append_next 32 (t ++ d) p.context c (omega (arith, length-append t d))),
  )

-- `p` is packed, and the object `q` that is given the bytes unpacks the header fields of `p`, the
-- transport id `t`, the destination hash, the payload `c` and the packet hash.
abbrev pub RoundTrips : (Bytes → Bytes) → Packet → Packet → Option Bytes → Bytes → Type 0
RoundTrips sha256 p q t c =
    (p' : Packet) × (pack sha256 p ≡ (ok tt, p'))
    × (unpack sha256 (record q { raw = p'.raw }) ≡ (
      true,
      record (read_back q p t p.destination.hash c) { raw = p'.raw; packet_hash = p'.packet_hash },
    ))

module _ (sha256 : Bytes → Bytes) (p q : Packet) (typed : IsTyped p) (hops : p.hops < 256)
    (context : p.context < 256) (not_proof : p.context ≢ lr_proof)
    (hashed : length p.destination.hash ≡ dst_len) where
  flags-lt : p.flags < 256
  unfolding get_packed_flags
  flags-lt =
      let bound =
        λ (k : ℕ). pack_bits-lt p.header_type p.context_flag p.transport_type k p.packet_type in
      ground (
        arith,
        typed.made,
        bound p.destination.kind typed.header typed.flag typed.transport typed.kind typed.packet,
      )

  -- A packet with a header of type 1 that fits the MTU, and is no link proof, is packed, and the far end unpacks the same
  -- header fields, destination, payload (as it was sent) and packet hash.
  pub unpack-pack_1 :
      (c : Bytes)
      → p.header_type ≡ header_1
      → sent_ciphertext p ≡ some c
      → length (wire p.flags p.hops p.destination.hash p.context c) ≤ p.mtu
      → RoundTrips sha256 p q none c
  unpack-pack_1 c h1 ec fits = (
    (outcome sha256 false p p.destination.hash c).1,
    pack-wire sha256 p p.destination.hash c typed.header flags-lt hops context (ground arith) ec
        ∙ ap (λ b. outcome sha256 b p p.destination.hash c) (le→ltb _ _ fits),
    unpack_1 sha256 p q p.destination.hash c typed h1 hashed,
  )

  -- So with a header of type 2, where the transport id comes back too.
  pub unpack-pack_2 :
      (t c : Bytes)
      → p.header_type ≡ header_2
      → p.transport_id ≡ some t
      → length t ≡ dst_len
      → sent_ciphertext p ≡ some c
      → length (wire p.flags p.hops (t ++ p.destination.hash) p.context c) ≤ p.mtu
      → RoundTrips sha256 p q (some t) c
  unpack-pack_2 t c h2 et lt ec fits = (
    (outcome sha256 false p (t ++ p.destination.hash) c).1,
    pack-wire sha256 p (t ++ p.destination.hash) c typed.header flags-lt hops context (ground arith)
          ec
        ∙ ap (λ b. outcome sha256 b p (t ++ p.destination.hash) c) (le→ltb _ _ fits),
    unpack_2 sha256 p q t p.destination.hash c typed h2 lt hashed,
  )
