-- ===== src/Packet/Proofs.antt =====
-- The life of a receipt under any sequence of proofs, responses, timeout checks and new timeouts.
use reticulum.Prelude.{
  ℕ, ◌≡◌, ◌≢◌, ◌↔◌, ◌⊎◌, Option-cases, inl, inr, refl, Bytes, length, take, bytes_eq,
  bytes_eq_sound, Bool-cases, Option, none, some, List, [], ◌∷◌, Bool, ==_iff, true, ◌==◌, arith,
}
use reticulum.Packet.Receipt.{
  Receipt, Peer, Status, failed, sent, delivered, culled, Timeout, validate_by, validate_proof,
  validate_link_proof, check_timeout, set_timeout, explicit_signature, implicit_signature,
  conclude_by_response, conclude_by_progress,
}

-- What happens to a receipt: a proof for its destination, a proof over a link, a response to the
-- request that the packet carried, or a part of one, a check of the timeout, and a new timeout.
pub data Event : Type 0 where
  proof : Bytes → ℕ → Event
  link_proof : Peer → Bytes → ℕ → Event
  response response_part : ℕ → Event
  check : ℕ → Event
  retime : Timeout → Event

unfoldable pub step : Event → Receipt → Receipt
unfolding set_timeout
step (proof bs now) r = (validate_proof bs now r).1
step (link_proof link bs now) r = (validate_link_proof bs now link r).1
step (response now) r = conclude_by_response now r
step (response_part now) r = conclude_by_progress now r
step (check now) r = check_timeout now r
step (retime t) r = set_timeout t r

unfoldable pub run : List Event → Receipt → Receipt
run [] r = r
run (e ∷ es) r = run es (step e r)

module _ (hash : Bytes) (identity : Option (Bytes → Bytes → Bool)) where
  -- A proof by the destination's identity: the hash and a signature over it, or the signature alone.
  abbrev pub IsProof : Bytes → Type 0
  IsProof bs =
      (validate : Bytes → Bytes → Bool) × (identity ≡ some validate)
      × (((length bs ≡ 96) × (take 32 bs ≡ hash) × (validate (explicit_signature bs) hash ≡ true))
          ⊎ ((length bs ≡ 64) × (validate (implicit_signature bs) hash ≡ true)))

  -- An event that carries a valid signature over the hash of the packet.
  abbrev pub Proves : Event → Type 0
  Proves (proof bs now) = IsProof bs
  Proves (link_proof link bs now) =
      (take 32 bs ≡ hash) × (link.validate (explicit_signature bs) hash ≡ true)
  Proves (response now) = ⊥
  Proves (response_part now) = ⊥
  Proves (check now) = ⊥
  Proves (retime t) = ⊥

  abbrev pub SomeProves : List Event → Type 0
  SomeProves [] = ⊥
  SomeProves (e ∷ es) = Proves e ⊎ SomeProves es

-- A response to the request that the packet carried, or a part of one.
abbrev pub Responds : Event → Type 0
Responds (response now) = Unit {0}
Responds (response_part now) = Unit {0}
Responds _ = ⊥

abbrev pub SomeResponds : List Event → Type 0
SomeResponds [] = ⊥
SomeResponds (e ∷ es) = Responds e ⊎ SomeResponds es

module _ (r : Receipt) (bs : Bytes) (now : ℕ) (pending : r.status ≢ delivered) where
  validate_by-valid :
      (identity : Option (Bytes → Bytes → Bool)) (validate : Bytes → Bytes → Bool)
      (signature : Bytes)
      → identity ≡ some validate
      → (validate_by identity signature bs now r).1.status ≡ delivered
      → validate signature r.hash ≡ true
  unfolding validate_by
  validate_by-valid none validate signature e h = cc
  validate_by-valid (some v) validate signature e h = ground arith

  validate_proof-length :
      (validate_proof bs now r).1.status ≡ delivered
      → ((length bs ≡ 96)
          × (bytes_eq (take 32 bs) r.hash ≡ true)
          × ((validate_by r.identity (explicit_signature bs) bs now r).1.status ≡ delivered))
        ⊎ ((length bs ≡ 64)
            × ((validate_by r.identity (implicit_signature bs) bs now r).1.status ≡ delivered))
  unfolding validate_proof
  validate_proof-length h = elim (Bool-cases (length bs == 96)) [
    | inl l ↦ elim (Bool-cases (bytes_eq (take 32 bs) r.hash)) [
      | inl m ↦ inl ((==_iff _ _).0 l, m, rw (l, m) at h)
      | inr m ↦ absurd (pending (rw (l, m) at h))
    ]
    | inr l ↦ elim (Bool-cases (length bs == 64)) [
      | inl m ↦ inr ((==_iff _ _).0 m, rw (l, m) at h)
      | inr m ↦ absurd (pending (rw (l, m) at h))
    ]
  ]

  validate_proof-none : r.identity ≡ none → (validate_proof bs now r).1.status ≡ delivered → ⊥
  unfolding validate_proof validate_by
  validate_proof-none e h = pending (ground arith)

  validate_by_lem : (validate_proof bs now r).1.status ≡ delivered → IsProof r.hash r.identity bs
  validate_by_lem h = elim (Option-cases r.identity) [
    | inl e ↦ absurd (validate_proof-none e h)
    | inr (validate, e) ↦ (
      validate,
      e,
      elim (validate_proof-length h) [
        | inl (l, m, k) ↦ inl (
          l,
          bytes_eq_sound (take 32 bs) r.hash m,
          validate_by-valid r.identity validate (explicit_signature bs) e k,
        )
        | inr (l, k) ↦ inr (l, validate_by-valid r.identity validate (implicit_signature bs) e k)
      ],
    )
  ]

step-Proves :
    (e : Event) (r : Receipt)
    → r.status ≢ delivered
    → (step e r).status ≡ delivered
    → Proves r.hash r.identity e ⊎ Responds e
unfolding step validate_link_proof check_timeout
step-Proves (proof bs now) r nd h = inl (validate_by_lem r bs now nd h)
step-Proves (link_proof link bs now) r nd h =
    inl (ground (arith, bytes_eq_sound (take 32 bs) r.hash))
step-Proves (response now) r nd h = inr tt
step-Proves (response_part now) r nd h = inr tt
step-Proves (check now) r nd h = ground arith
step-Proves (retime t) r nd h = ground arith

step_keeps :
    (e : Event) (r : Receipt) → ((step e r).hash ≡ r.hash) × ((step e r).identity ≡ r.identity)
unfolding step validate_proof validate_by validate_link_proof check_timeout conclude_by_response
    conclude_by_progress
step_keeps (proof bs now) r = ground arith
step_keeps (link_proof link bs now) r = ground arith
step_keeps (response now) r = ground arith
step_keeps (response_part now) r = ground arith
step_keeps (check now) r = ground arith
step_keeps (retime t) r = ground arith

delivered-cases : (s : Status) → (s ≡ delivered) ⊎ (s ≢ delivered)
delivered-cases delivered = inl refl
delivered-cases failed = inr (λ e. cc)
delivered-cases sent = inr (λ e. cc)
delivered-cases culled = inr (λ e. cc)

-- A receipt becomes delivered only by a valid signature over the hash of its own packet or, where
-- the packet carried a request, by a response to it or a part of one, which needs no signature;
-- whatever else happens to it before and after.
pub run-Proves :
    (es : List Event) (r : Receipt)
    → r.status ≢ delivered
    → (run es r).status ≡ delivered
    → SomeProves r.hash r.identity es ⊎ SomeResponds es
unfolding run
run-Proves [] r nd h = absurd (nd h)
run-Proves (e ∷ es) r nd h = elim (delivered-cases (step e r).status) [
  | inl d ↦ elim (step-Proves e r nd d) [ inl p ↦ inl (inl p) | inr q ↦ inr (inl q) ]
  | inr k ↦
      elim (rw (step_keeps e r).0 at (rw (step_keeps e r).1 at (run-Proves es (step e r) k h))) [
        | inl p ↦ inl (inr p)
        | inr q ↦ inr (inr q)
      ]
]

-- How status, `proved` and the time of conclusion hang together.
pub record IsSettled (r : Receipt) : Type 0 where
  pub proved : (r.proved ≡ true) ↔ (r.status ≡ delivered)
  pub open_end : (r.status ≡ sent) ↔ (r.concluded_at ≡ none)

step-IsSettled : (e : Event) (r : Receipt) → IsSettled r → IsSettled (step e r)
unfolding step validate_proof validate_by validate_link_proof check_timeout conclude_by_response
    conclude_by_progress
step-IsSettled (proof bs now) r s = ground arith
step-IsSettled (link_proof link bs now) r s = ground arith
step-IsSettled (response now) r s = ground arith
step-IsSettled (response_part now) r s = ground arith
step-IsSettled (check now) r s = ground arith
step-IsSettled (retime t) r s = ground arith

step-delivered : (e : Event) (r : Receipt) → r.status ≡ delivered → (step e r).status ≡ delivered
unfolding step validate_proof validate_by validate_link_proof check_timeout conclude_by_response
    conclude_by_progress
step-delivered (proof bs now) r s = ground arith
step-delivered (link_proof link bs now) r s = ground arith
step-delivered (response now) r s = ground arith
step-delivered (response_part now) r s = ground arith
step-delivered (check now) r s = ground arith
step-delivered (retime t) r s = ground arith

-- Under any events a receipt is proved exactly if it is delivered, and has no time of conclusion
-- exactly while it is only sent; once delivered it stays so, and no timeout fails it.
pub run-IsSettled :
    (es : List Event) (r : Receipt)
    → IsSettled r
    → IsSettled (run es r) × (r.status ≡ delivered → (run es r).status ≡ delivered)
unfolding run
run-IsSettled [] r s = (s, λ d. d)
run-IsSettled (e ∷ es) r s =
    let (t, keeps) = run-IsSettled es (step e r) (step-IsSettled e r s) in
    (t, λ d. keeps (step-delivered e r d))
