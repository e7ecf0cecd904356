-- ===== src/Identity/Opening.antt =====
-- How Identity.decrypt finds the ratchet that opens a token, and what it does without one.
use reticulum.Prelude.{
  ◌<◌, ◌≡◌, inl, inr, refl, sym, ap, ◌∙◌, Bytes, length, length-append, take, take-append, drop,
  drop-append, List, [], ◌∷◌, ◌++◌, Bool, Bool-cases, Option-cases, true, false, Option, none, some,
  ltb, lt→ltb, arith,
}
use reticulum.Prelude.Results.{ok, err}
use reticulum.Crypto.Token.{Crypto}
use reticulum.Identity.{Curves, Identity, half_key}
use reticulum.Identity.Known.{ratchet_id}
use reticulum.Identity.Cipher.{
  no_key, Receiver, decrypt_shared, try_ratchet, try_ratchets, decrypt_opened, decrypt_for,
}

abbrev first_of_pair : Option (Bytes × Bytes) → Option Bytes
first_of_pair none = none
first_of_pair (some p) = some p.0

abbrev second_or_empty : Option (Bytes × Bytes) → Bytes
second_or_empty none = []
second_or_empty (some p) = p.1

module _ (x : Curves) (c : Crypto) (sha256 : Bytes → Bytes) where
  first_closed :
      (i : Identity) (peer_pub ciphertext b : Bytes) (before : List Bytes)
      → try_ratchets x c sha256 i peer_pub ciphertext (b ∷ before) ≡ none
      → (try_ratchet x c sha256 i peer_pub ciphertext b ≡ none)
        × (try_ratchets x c sha256 i peer_pub ciphertext before ≡ none)
  unfolding try_ratchets
  first_closed i peer_pub ciphertext b before h =
      elim (Option-cases (try_ratchet x c sha256 i peer_pub ciphertext b)) [
        | inl closed ↦ (closed, rw (try_ratchets, closed) at h)
        | inr (plaintext, opens) ↦
            let opened : some (plaintext, ratchet_id sha256 (x.x_public b)) ≡ none =
              rw (try_ratchets, opens) at h in
            absurd (cc opened)
      ]

  found_lem :
      (i : Identity) (peer_pub ciphertext : Bytes) (ratchets : List Bytes) (plaintext id : Bytes)
      → try_ratchets x c sha256 i peer_pub ciphertext ratchets ≡ some (plaintext, id)
      → (before : List Bytes) × (ratchet : Bytes) × (after : List Bytes) × (ratchets
          ≡ before ++ (ratchet ∷ after))
        × (try_ratchets x c sha256 i peer_pub ciphertext before ≡ none)
        × (try_ratchet x c sha256 i peer_pub ciphertext ratchet ≡ some plaintext)
        × (id ≡ ratchet_id sha256 (x.x_public ratchet))
  unfolding try_ratchets
  found_lem i peer_pub ciphertext [] plaintext id h = absurd (cc h)
  found_lem i peer_pub ciphertext (r ∷ ratchets) plaintext id h =
      elim (Option-cases (try_ratchet x c sha256 i peer_pub ciphertext r)) [
        | inr (opened, opens) ↦
            let same : some (opened, ratchet_id sha256 (x.x_public r)) ≡ some (plaintext, id) =
              rw (try_ratchets, opens) at h in
            (
              [],
              r,
              ratchets,
              refl,
              refl,
              opens ∙ ap first_of_pair same,
              sym (ap second_or_empty same),
            )
        | inl closed ↦
            let (before, ratchet, after, split, none_before, opens, mine) =
              found_lem i peer_pub ciphertext ratchets plaintext id
                (rw (try_ratchets, closed) at h) in
            (
              r ∷ before,
              ratchet,
              after,
              ap (◌∷◌ r) split,
              rw (try_ratchets, closed) none_before,
              opens,
              mine,
            )
      ]

  decrypt_for_lem :
      (i : Identity) (token : Bytes) (ratchets : List Bytes) (enforce : Bool)
      (receiver result : Receiver) (plaintext : Bytes)
      → decrypt_for x c sha256 i token (some ratchets) enforce receiver
        ≡ ok (some plaintext, result)
      → (own : Bytes) × (i.prv ≡ some own)
        × (decrypt_opened x c sha256 i own
              (take half_key token)
              (drop half_key token)
              ratchets
              enforce
            ≡ (some plaintext, result))
  unfolding decrypt_for
  decrypt_for_lem i token ratchets enforce receiver result plaintext h =
      let peer : Bytes = take half_key token in
      elim (Option-cases i.prv) [
        | inl missing ↦
            let raised : err no_key ≡ ok (some plaintext, result) =
              rw (decrypt_for, missing) at h in
            absurd (cc raised)
        | inr (own, has) ↦ elim (Bool-cases (ltb half_key (length token))) [
          | inr short ↦
              let refused : ok (none, receiver) ≡ ok (some plaintext, result) =
                rw (decrypt_for, has, short) at h in
              absurd (cc refused)
          | inl long ↦ elim (Bool-cases (x.accepts_x peer)) [
            | inr bad ↦
                let refused : ok (none, record { latest_ratchet_id = none })
                    ≡ ok (some plaintext, result) =
                  rw (decrypt_for, has, long, bad) at h in
                absurd (cc refused)
            | inl good ↦
                let opened : ok
                      (decrypt_opened x c sha256 i own peer (drop half_key token) ratchets enforce)
                    ≡ ok (some plaintext, result) =
                  rw (decrypt_for, has, long, good) at h in
                (own, has, cc opened)
          ]
        ]
      ]

  pub reach_lem :
      (i : Identity) (own peer ciphertext : Bytes) (ratchets : List Bytes) (enforce : Bool)
      (receiver : Receiver)
      → i.prv ≡ some own
      → length peer ≡ half_key
      → x.accepts_x peer ≡ true
      → 0 < length ciphertext
      → decrypt_for x c sha256 i (peer ++ ciphertext) (some ratchets) enforce receiver
        ≡ ok (decrypt_opened x c sha256 i own peer ciphertext ratchets enforce)
  unfolding decrypt_for
  reach_lem i own peer ciphertext ratchets enforce receiver has l good pos =
      let long : ltb half_key (length (peer ++ ciphertext)) ≡ true =
        lt→ltb _ _ (omega (arith, length-append peer ciphertext)) in
      rw
        (
          decrypt_for,
          has,
          long,
          take-append half_key peer ciphertext l,
          drop-append half_key peer ciphertext l,
          good,
        )
        refl

  pub opened_by_ratchet :
      (i : Identity) (own peer ciphertext plaintext id : Bytes) (ratchets : List Bytes)
      (enforce : Bool)
      → try_ratchets x c sha256 i peer ciphertext ratchets ≡ some (plaintext, id)
      → decrypt_opened x c sha256 i own peer ciphertext ratchets enforce
        ≡ (some plaintext, record { latest_ratchet_id = some id })
  unfolding decrypt_opened
  opened_by_ratchet i own peer ciphertext plaintext id ratchets enforce h =
      rw (decrypt_opened, h) refl

  pub opened_by_own_key :
      (i : Identity) (own peer ciphertext plaintext : Bytes) (ratchets : List Bytes)
      → try_ratchets x c sha256 i peer ciphertext ratchets ≡ none
      → decrypt_shared x c sha256 i own peer ciphertext ≡ some plaintext
      → (decrypt_opened x c sha256 i own peer ciphertext ratchets false
          ≡ (some plaintext, record { latest_ratchet_id = none }))
        × (decrypt_opened x c sha256 i own peer ciphertext ratchets true
            ≡ (none, record { latest_ratchet_id = none }))
  unfolding decrypt_opened
  opened_by_own_key i own peer ciphertext plaintext ratchets h d =
      (rw (decrypt_opened, h, d) refl, rw (decrypt_opened, h) refl)

  -- With ratchets enforced, what is decrypted was opened by one of the ratchets: the first that
  -- opens it, whose id the receiver gets. The identity's own key does not count.
  pub decrypt_for-enforced :
      (i : Identity) (token : Bytes) (ratchets : List Bytes) (receiver result : Receiver)
      (plaintext : Bytes)
      → decrypt_for x c sha256 i token (some ratchets) true receiver ≡ ok (some plaintext, result)
      → (before : List Bytes) × (ratchet : Bytes) × (after : List Bytes) × (ratchets
          ≡ before ++ (ratchet ∷ after))
        × (try_ratchets x c sha256 i (take half_key token) (drop half_key token) before ≡ none)
        × (try_ratchet x c sha256 i (take half_key token) (drop half_key token) ratchet
            ≡ some plaintext)
        × (result.latest_ratchet_id ≡ some (ratchet_id sha256 (x.x_public ratchet)))
  unfolding decrypt_for decrypt_opened
  decrypt_for-enforced i token ratchets receiver result plaintext h =
      let (own, has, opened) = decrypt_for_lem i token ratchets true receiver result plaintext h in
      elim (Option-cases
        (try_ratchets x c sha256 i (take half_key token) (drop half_key token) ratchets)) [
          | inl closed ↦
              let refused : (none, record { latest_ratchet_id = none }) ≡ (some plaintext, result) =
                rw (decrypt_opened, closed) at opened in
              absurd (cc (ap (λ r. r.0) refused))
          | inr ((found, id), opens) ↦
              let same : (some found, record { latest_ratchet_id = some id })
                  ≡ (some plaintext, result) =
                rw (decrypt_opened, opens) at opened in
              let (before, ratchet, after, split, none_before, works, mine) =
                found_lem i (take half_key token) (drop half_key token) ratchets found id opens in
              (
                before,
                ratchet,
                after,
                split,
                none_before,
                works ∙ ap (λ r. r.0) same,
                sym (ap (λ r. r.1.latest_ratchet_id) same) ∙ ap some mine,
              )
        ]

  -- Ratchets before the one that opens the token.
  pub later_ratchet :
      (i : Identity) (peer_pub ciphertext : Bytes) (before : List Bytes) (ratchet : Bytes)
      (after : List Bytes) (plaintext : Bytes)
      → try_ratchets x c sha256 i peer_pub ciphertext before ≡ none
      → try_ratchet x c sha256 i peer_pub ciphertext ratchet ≡ some plaintext
      → try_ratchets x c sha256 i peer_pub ciphertext (before ++ (ratchet ∷ after))
        ≡ some (plaintext, ratchet_id sha256 (x.x_public ratchet))
  unfolding try_ratchets
  later_ratchet i peer_pub ciphertext [] ratchet after plaintext closed opens =
      rw (try_ratchets, opens) refl
  later_ratchet i peer_pub ciphertext (b ∷ before) ratchet after plaintext closed opens =
      let (first, rest) = first_closed i peer_pub ciphertext b before closed in
      rw (try_ratchets, first)
        (later_ratchet i peer_pub ciphertext before ratchet after plaintext rest opens)
