-- ===== src/Link/Answer.antt =====
-- What the destination of a link makes of the initiator's request.
use mathlib.Core.List.{append_assoc}
use reticulum.Prelude.{
  ℕ, ◌+◌, ◌%◌, ◌≡◌, refl, ap, ◌∙◌, Bytes, ◌++◌, length, length-append, take, take-append, drop,
  drop-append, Option, some, Option-cases, inl, inr, Bool, true, false, arith, ◌&&◌, ◌||◌, ◌==◌,
  if◌then◌else◌,
}
use reticulum.Link.{Link, pending, handshaking, key_bytes, link_mtu_size, had_outbound}
use reticulum.Link.Signalling.{lr_start, signalling_bytes, mtu_behind-signalling_bytes}
use reticulum.Link.Keys.{World, derive_key, handshake}
use reticulum.Link.Establish.{
  Identity, mtu_or_default, prove, prove_after, answer, requested, validate_request,
}

pub mtu_or_default_below :
    (mtu : ℕ)
    → mtu_or_default (some (mtu % 0x200000)) % 0x200000 ≡ mtu_or_default (some (mtu % 0x200000))
mtu_or_default_below mtu = ground arith

pub mtu_or_default_twice :
    (o : Option ℕ) → mtu_or_default (some (mtu_or_default o)) ≡ mtu_or_default o
mtu_or_default_twice o = ground arith

signalling_bytes_again :
    (m n mode : ℕ) (sb : Bytes)
    → signalling_bytes m mode ≡ some sb
    → (sb' : Bytes) × (signalling_bytes n mode ≡ some sb')
unfolding signalling_bytes
signalling_bytes_again m n mode sb h = elim (Option-cases (signalling_bytes n mode)) [
  | inl e ↦ absurd (ground (arith, e))
  | inr found ↦ found
]

pub then_branch {ℓ} : {A : Type ℓ} (b : Bool) (x y : A) → b ≡ true → (if b then x else y) ≡ x
then_branch true x y h = refl
then_branch false x y h = absurd (ground arith)

-- A request's data.
abbrev pub lr_data : World → Bytes → Bytes → Bytes → Bytes
lr_data w prv sig_pub sb = (w.public_key prv ++ sig_pub) ++ sb

-- A proof's data.
abbrev pub lp_data : World → Identity → Bytes → Bytes → Bytes → Bytes
lp_data w identity prv link_id sb =
    identity.sign (link_id ++ w.public_key prv ++ identity.sig_pub_bytes ++ sb)
    ++ w.public_key prv
    ++ sb

module _ (w : World) (identity : Identity) (key_length : (a : Bytes) → length (w.public_key a) ≡ 32)
    (keys : (a : Bytes) → w.is_key (w.public_key a) ≡ true) where
  -- The destination's link after its handshake.
  abbrev answered : ℕ → Bytes → Link → Link
  answered now key l = had_outbound now (record l { status = handshaking; derived_key = some key })

  request_keys :
      (prv sig_pub sb : Bytes)
      → length sig_pub ≡ 32
      → (take key_bytes (lr_data w prv sig_pub sb) ≡ w.public_key prv)
        × (take key_bytes (drop key_bytes (lr_data w prv sig_pub sb)) ≡ sig_pub)
        × (length (w.public_key prv ++ sig_pub) ≡ lr_start)
  request_keys prv sig_pub sb h =
      let same : lr_data w prv sig_pub sb ≡ w.public_key prv ++ (sig_pub ++ sb) =
        append_assoc (w.public_key prv) sig_pub sb in
      (
        ap (take key_bytes) same
            ∙ take-append key_bytes (w.public_key prv) (sig_pub ++ sb) (key_length prv),
        ap (λ (t : Bytes). take key_bytes (drop key_bytes t)) same
            ∙ ap (take key_bytes)
                (drop-append key_bytes (w.public_key prv) (sig_pub ++ sb) (key_length prv))
            ∙ take-append key_bytes sig_pub sb h,
        omega (arith, length-append (w.public_key prv) sig_pub, key_length prv, h),
      )

  pub handshake-derived :
      (l : Link) (prv peer key : Bytes)
      → l.private_key ≡ some prv
      → l.peer_pub_bytes ≡ some peer
      → l.status ≡ pending
      → derive_key w prv peer l.mode l.link_id ≡ some key
      → handshake w l ≡ (true, record l { status = handshaking; derived_key = some key })
  unfolding handshake
  handshake-derived l prv peer key own other first secret =
      ground (arith, own, other, first, secret)

  answer_lem :
      (l : Link) (prv peer key sb : Bytes) (now : ℕ)
      → l.private_key ≡ some prv
      → l.peer_pub_bytes ≡ some peer
      → l.status ≡ pending
      → derive_key w prv peer l.mode l.link_id ≡ some key
      → signalling_bytes l.mtu l.mode ≡ some sb
      → answer w identity prv now l ≡ some (lp_data w identity prv l.link_id sb, answered now key l)
  unfolding answer prove
  answer_lem l prv peer key sb now own other first secret bytes =
      ap (prove_after w identity prv now) (handshake-derived l prv peer key own other first secret)
      ∙ rw (prove_after, bytes) refl

  -- The destination takes the request.
  pub validate_request_lem :
      (prv prv_d sig_pub sb link_id key : Bytes) (mtu mode now hops interface : ℕ)
      → length sig_pub ≡ 32
      → w.is_key sig_pub ≡ true
      → signalling_bytes mtu mode ≡ some sb
      → derive_key w prv_d (w.public_key prv) mode link_id ≡ some key
      → (sb' : Bytes) × (ld : Link) × (signalling_bytes
            (mtu_or_default (some (mtu % 0x200000)))
            mode
          ≡ some sb')
        × (validate_request w identity prv_d now hops interface link_id (lr_data w prv sig_pub sb)
            ≡ some (lp_data w identity prv_d link_id sb', ld))
        × (ld.status ≡ handshaking)
        × (ld.mtu ≡ mtu_or_default (some (mtu % 0x200000)))
        × (ld.derived_key ≡ some key)
  unfolding validate_request
  validate_request_lem prv prv_d sig_pub sb link_id key mtu mode now hops interface h good bytes
        secret =
      let (first, second, size) = request_keys prv sig_pub sb h in
      let (told_mtu, told_mode, whole) =
        mtu_behind-signalling_bytes lr_start mtu mode (w.public_key prv ++ sig_pub) sb size bytes in
      let (sb', bytes') =
        signalling_bytes_again mtu (mtu_or_default (some (mtu % 0x200000))) mode sb bytes in
      let short : (length (lr_data w prv sig_pub sb) == lr_start) ≡ false = ground (arith, whole) in
      let long : (length (lr_data w prv sig_pub sb) == lr_start + link_mtu_size) ≡ true =
        ground (arith, whole) in
      let link : Link =
        requested w identity prv_d now hops interface link_id (lr_data w prv sig_pub sb) in
      let same_mtu : link.mtu ≡ mtu_or_default (some (mtu % 0x200000)) = rw (long, told_mtu) refl in
      let fits : ((length (lr_data w prv sig_pub sb) == lr_start
              || length (lr_data w prv sig_pub sb) == lr_start + link_mtu_size)
            && (w.is_key (take key_bytes (lr_data w prv sig_pub sb))
                && w.is_key (take key_bytes (drop key_bytes (lr_data w prv sig_pub sb)))))
          ≡ true =
        rw (first, second, short, long, keys prv, good) refl in
      (
        sb',
        answered now key link,
        bytes',
        then_branch _ _ _ fits
            ∙ answer_lem link prv_d (w.public_key prv) key sb' now refl (ap some first) refl
                (ap (λ (m : ℕ). derive_key w prv_d (w.public_key prv) m link_id) told_mode ∙ secret)
                (ap (λ (m : ℕ). signalling_bytes m link.mode) same_mtu
                  ∙ ap (signalling_bytes (mtu_or_default (some (mtu % 0x200000)))) told_mode
                  ∙ bytes'),
        refl,
        same_mtu,
        refl,
      )
