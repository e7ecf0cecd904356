-- ===== src/Transport/Forward/Clamp.antt =====
-- The link request that a node sends on: the id of the link and the MTU in it.
use reticulum.Prelude.{
  ℕ, ◌-◌, ◌%◌, ◌≤◌, ◌<◌, ◌≡◌, inl, inr, refl, sym, ap, ◌∙◌, min, Bytes, length, length-append,
  length-take, take, drop, take-append, take-append-drop, take-all, take-take, ◌++◌, Bool,
  Bool-cases, Option-cases, true, false, not, ◌&&◌, ◌||◌, Option, none, some, ltb, ltb→le, ◌==◌,
  ==_iff, arith,
}
use mathlib.Core.List.{append_assoc}
use reticulum.Packet.Hash.{get_hashable_part, truncated_hash}
use reticulum.Link.Signalling.{
  lr_start, mtu_from_lr_packet, mtu_behind, mode_from_lr_packet, signalling_bytes,
  mtu_behind-signalling_bytes,
}
use reticulum.Transport.Forward.{Arrived, Medium}
use reticulum.Transport.Forward.Path.{
  clamped, clamp_mtu, clamp_request, cut_mtu, is_below, link_id_from_lr_packet,
}

-- The two keys of a request are there, and are the same.
abbrev pub SameKeys : Bytes → Bytes → Type 0
SameKeys before after = (lr_start ≤ length after) × (take lr_start after ≡ take lr_start before)

-- An MTU in the request is one that both interfaces carry, where they say what they carry.
abbrev pub MtuFits : Option ℕ → Medium → Bytes → Type 0
MtuFits ph out payload =
    (mtu : ℕ)
    → mtu_from_lr_packet payload ≡ some mtu
    → ((nh : ℕ) → out.hw_mtu ≡ some nh → mtu ≤ nh)
      × ((k : ℕ) → ph ≡ some k → 0 < k → mtu ≤ k)
      × (out.hw_mtu ≡ none → mtu ≡ 0)

length-mtu :
    (payload : Bytes) (mtu : ℕ) → mtu_from_lr_packet payload ≡ some mtu → length payload ≡ 67
unfolding mtu_behind
length-mtu payload mtu h = ground (arith, ==_iff (length payload) 67)

mtu_none : (payload : Bytes) → length payload ≡ 64 → mtu_from_lr_packet payload ≡ none
unfolding mtu_behind
mtu_none payload h = rw h refl

cut_mtu_lem :
    (front payload : Bytes)
    → length payload ≡ 67
    → (cut_mtu (front ++ payload) ≡ front ++ take lr_start payload)
      × (length (take lr_start payload) ≡ lr_start)
cut_mtu_lem front payload h =
    let keys : Bytes = take lr_start payload in
    let short : length keys ≡ 64 = omega (arith, length-take lr_start payload) in
    let whole : front ++ payload ≡ (front ++ keys) ++ drop lr_start payload = sym (
      append_assoc front keys (drop lr_start payload)
      ∙ ap (λ b. front ++ b) (take-append-drop lr_start payload)) in
    (
      ap (λ b. take (length (front ++ payload) - 3) b) whole
          ∙ take-append (length (front ++ payload) - 3) (front ++ keys) (drop lr_start payload)
              (omega (arith, length-append front keys, length-append front payload)),
      short,
    )

module _ (sha256 : Bytes → Bytes) where
  -- The id of a link is the truncated hash of what a request is hashed over, less all that is
  -- behind the two keys.
  pub link_id_lem :
      (header_type : ℕ) (raw front payload : Bytes)
      → get_hashable_part header_type raw ≡ some (front ++ payload)
      → lr_start ≤ length payload
      → link_id_from_lr_packet sha256 header_type raw payload
        ≡ some (truncated_hash sha256 (front ++ take lr_start payload))
  unfolding link_id_from_lr_packet
  link_id_lem header_type raw front payload part long =
      let keys : Bytes = take lr_start payload in
      let whole : front ++ payload ≡ (front ++ keys) ++ drop lr_start payload = sym (
        append_assoc front keys (drop lr_start payload)
        ∙ ap (λ b. front ++ b) (take-append-drop lr_start payload)) in
      elim (Bool-cases (ltb lr_start (length payload))) [
        | inl more ↦
            rw (link_id_from_lr_packet, part, more)
              (ap (λ b. some (truncated_hash sha256 b))
                (ap (λ b. take (length (front ++ payload) - (length payload - 64)) b) whole
                  ∙ take-append (length (front ++ payload) - (length payload - 64)) (front ++ keys)
                      (drop lr_start payload)
                      (omega (
                        arith,
                        length-append front keys,
                        length-append front payload,
                        length-take lr_start payload,
                      ))))
        | inr exact ↦
            rw (link_id_from_lr_packet, part, exact)
              (ap (λ b. some (truncated_hash sha256 (front ++ b)))
                (sym (take-all lr_start payload (ltb→le _ _ exact))))
      ]

-- What goes on is the bytes before the payload, and a payload with the same keys and an MTU that
-- fits.
abbrev pub GoesOn : Option ℕ → Medium → Bytes → Bytes → Bytes → Type 0
GoesOn ph out front payload raw =
    (new : Bytes) × (raw ≡ front ++ new) × SameKeys payload new × MtuFits ph out new

module _ (ph : Option ℕ) (out : Medium) (front payload raw : Bytes) where
  cut-GoesOn :
      length payload ≡ 67
      → some (cut_mtu (front ++ payload)) ≡ some raw
      → GoesOn ph out front payload raw
  cut-GoesOn l h =
      let (cut, short) = cut_mtu_lem front payload l in
      let same : cut_mtu (front ++ payload) ≡ raw = cc in
      (
        take lr_start payload,
        sym same ∙ cut,
        (omega (arith, short), take-take lr_start lr_start payload (omega arith)),
        λ mtu carried. absurd (cc (carried, mtu_none (take lr_start payload) short)),
      )

  same-GoesOn :
      lr_start ≤ length payload
      → some (front ++ payload) ≡ some raw
      → MtuFits ph out payload
      → GoesOn ph out front payload raw
  same-GoesOn long h fits =
      let same : front ++ payload ≡ raw = cc in (payload, sym same, (long, refl), fits)

  signalled-GoesOn :
      (nh k mode : ℕ) (sb : Bytes)
      → out.hw_mtu ≡ some nh
      → ph ≡ some k
      → length payload ≡ 67
      → signalling_bytes (min nh k) mode ≡ some sb
      → some (cut_mtu (front ++ payload) ++ sb) ≡ some raw
      → GoesOn ph out front payload raw
  signalled-GoesOn nh k mode sb e f l made h =
      let keys : Bytes = take lr_start payload in
      let (cut, short) = cut_mtu_lem front payload l in
      let (read, mode_read, long) =
        mtu_behind-signalling_bytes lr_start (min nh k) mode keys sb short made in
      let same : cut_mtu (front ++ payload) ++ sb ≡ raw = cc in
      (
        keys ++ sb,
        sym same ∙ ap (λ b. b ++ sb) cut ∙ append_assoc front keys sb,
        (omega (arith, long), take-append lr_start keys sb short),
        λ mtu carried.
            let low : min nh k % 0x200000 ≡ mtu = cc (read, carried) in
            (
              λ nh' e'. let one : nh ≡ nh' = cc (e, e') in omega (arith, low, one),
              λ k' f' pos. let one : k ≡ k' = cc (f, f') in omega (arith, low, one),
              λ e'. absurd (cc (e, e')),
            ),
      )

or_false : (a b : Bool) → (a || b) ≡ false → (a ≡ false) × (b ≡ false)
or_false false b h = (refl, h)
or_false true b h = absurd (cc h)

clamped-GoesOn :
    (ph : Option ℕ) (out : Medium) (front payload raw : Bytes) (nh mode : ℕ)
    → out.hw_mtu ≡ some nh
    → length payload ≡ 67
    → clamped ph nh mode (front ++ payload) ≡ some raw
    → GoesOn ph out front payload raw
unfolding clamped
clamped-GoesOn none out front payload raw nh mode e l h = absurd (cc h)
clamped-GoesOn (some k) out front payload raw nh mode e l h =
    elim (Option-cases (signalling_bytes (min nh k) mode)) [
      | inl stuck ↦ let dropped : none ≡ some raw = rw (clamped, stuck) at h in absurd (cc dropped)
      | inr (sb, made) ↦
          signalled-GoesOn (some k) out front payload raw nh k mode sb e refl l made
            (rw (clamped, made) at h)
    ]

is_below_lem : (ph : Option ℕ) (mtu k : ℕ) → is_below ph mtu ≡ false → ph ≡ some k → 0 < k → mtu ≤ k
is_below_lem none mtu k h e pos = absurd (cc e)
is_below_lem (some j) mtu k h e pos = ground arith

module _ (ph : Option ℕ) (out : Medium) where
  clamp_mtu-GoesOn :
      (mtu mode : ℕ) (front payload raw : Bytes)
      → mtu_from_lr_packet payload ≡ some mtu
      → length payload ≡ 67
      → clamp_mtu ph out mtu mode (front ++ payload) ≡ some raw
      → GoesOn ph out front payload raw
  unfolding clamp_mtu
  clamp_mtu-GoesOn mtu mode front payload raw m l h = elim (Option-cases out.hw_mtu) [
    | inl unlimited ↦ cut-GoesOn ph out front payload raw l (rw (clamp_mtu, unlimited) at h)
    | inr (nh, e) ↦ elim (Bool-cases (not out.autoconfigure_mtu && not out.fixed_mtu)) [
      | inl fixed ↦ cut-GoesOn ph out front payload raw l (rw (clamp_mtu, e, fixed) at h)
      | inr able ↦ elim (Bool-cases (ltb nh mtu || is_below ph mtu)) [
        | inl above ↦
            clamped-GoesOn ph out front payload raw nh mode e l
              (rw (clamp_mtu, e, able, above) at h)
        | inr fits ↦
            let (le, below) = or_false (ltb nh mtu) (is_below ph mtu) fits in
            same-GoesOn ph out front payload raw (omega arith) (rw (clamp_mtu, e, able, fits) at h)
              (λ mtu' carried.
                let one : mtu ≡ mtu' = cc (m, carried) in
                (
                  λ nh' e'.
                      let two : nh ≡ nh' = cc (e, e') in omega (arith, ltb→le _ _ le, one, two),
                  λ k f pos. omega (arith, one, is_below_lem ph mtu k below f pos),
                  λ e'. absurd (cc (e, e')),
                ))
      ]
    ]
  ]

  -- A link request that goes on to the next hop keeps everything before its payload and the two
  -- keys at its start, and carries no MTU above what the interface it came in on and the one it
  -- leaves on carry: none but 0 where the latter names none.
  pub clamp_request-GoesOn :
      (p : Arrived) (front raw : Bytes)
      → lr_start ≤ length p.payload
      → clamp_request ph out p (front ++ p.payload) ≡ some raw
      → GoesOn ph out front p.payload raw
  unfolding clamp_request
  clamp_request-GoesOn p front raw long h = elim (Option-cases (mtu_from_lr_packet p.payload)) [
    | inl no_mtu ↦
        same-GoesOn ph out front p.payload raw long (rw (clamp_request, no_mtu) at h)
          (λ mtu carried. absurd (cc (no_mtu, carried)))
    | inr (mtu, carried) ↦ elim (Bool-cases (mtu == 0)) [
      | inl zeroed ↦
          same-GoesOn ph out front p.payload raw long (rw (clamp_request, carried, zeroed) at h)
            (λ mtu' c.
              let one : mtu' ≡ 0 = cc (c, carried, (==_iff mtu 0).0 zeroed) in
              (λ nh e. omega (arith, one), λ k f pos. omega (arith, one), λ e. one))
      | inr asked ↦
          clamp_mtu-GoesOn mtu (mode_from_lr_packet p.payload) front p.payload raw carried
            (length-mtu p.payload mtu carried) (rw (clamp_request, carried, asked) at h)
    ]
  ]
