-- ===== src/Channel/Collected.antt =====
-- What Channel._receive collects from the ring and hands on: consecutive sequence numbers, and only
-- envelopes of the ring.
use mathlib.Core.List.{append-nil, append_assoc}
use mathlib.Core.Path.{subst}
use reticulum.Prelude.{
  ℕ, ◌+◌, ◌%◌, ◌<◌, ◌≡◌, ◌⊎◌, inl, inr, refl, sym, ◌∙◌, Bool-cases, length, List, [], ◌∷◌, ◌++◌,
  All, All-append, Option-cases, none, some, ◌==◌, ==_iff, arith,
}
use reticulum.Channel.{Message, Envelope, seq_modulus}
use reticulum.Channel.Receive.{next_sequence, collect_wrapped, collect, remove, Received, deliver}

-- `es` carries the numbers n, n + 1, … modulo 2 ^ 16, and `m` is the number after them.
abbrev pub Consecutive : ℕ → List Envelope → ℕ → Type 0
Consecutive n [] m = n ≡ m
Consecutive n (e ∷ es) m = (e.sequence ≡ n) × Consecutive (next_sequence n) es m

abbrev pub In : Envelope → List Envelope → Type 0
In e [] = ⊥
In e (x ∷ ring) = (x ≡ e) ⊎ In e ring

Consecutive-append :
    (n k m : ℕ) (xs ys : List Envelope)
    → Consecutive n xs k
    → Consecutive k ys m
    → Consecutive n (xs ++ ys) m
Consecutive-append n k m [] ys hx hy = rw hx hy
Consecutive-append n k m (x ∷ xs) ys hx hy =
    (hx.0, Consecutive-append (next_sequence n) k m xs ys hx.1 hy)

Consecutive-length :
    (n m : ℕ) (es : List Envelope)
    → n < seq_modulus
    → Consecutive n es m
    → m ≡ (n + length es) % seq_modulus
Consecutive-length n m [] h c = omega arith
Consecutive-length n m (e ∷ es) h c =
    omega (arith, Consecutive-length (next_sequence n) m es (omega arith) c.1)

collect_wrapped-Consecutive :
    (ring : List Envelope) (n : ℕ)
    → Consecutive n (collect_wrapped ring n).0 (collect_wrapped ring n).1
unfolding collect_wrapped
collect_wrapped-Consecutive [] n = refl
collect_wrapped-Consecutive (e ∷ ring) n = elim (Bool-cases (e.sequence == n)) [
  | inl same ↦ rw same ((==_iff _ _).0 same, collect_wrapped-Consecutive ring (next_sequence n))
  | inr other ↦ rw other (collect_wrapped-Consecutive ring n)
]

pub collect-Consecutive :
    (ring rest : List Envelope) (n : ℕ)
    → Consecutive n (collect ring rest n).0 (collect ring rest n).1
unfolding collect
collect-Consecutive ring [] n = refl
collect-Consecutive ring (e ∷ rest) n = elim (Bool-cases (e.sequence == n)) [
  | inl same ↦ elim (Bool-cases (next_sequence n == 0)) [
    | inl wraps ↦
        let (found, next) = collect_wrapped ring 0 in
        rw (same, wraps)
          (
            (==_iff _ _).0 same,
            rw ((==_iff _ _).0 wraps) (
                Consecutive-append 0 (collect_wrapped ring 0).1 _ (collect_wrapped ring 0).0 _
                  (collect_wrapped-Consecutive ring 0)
                  (collect-Consecutive ring rest (collect_wrapped ring 0).1)),
          )
    | inr stays ↦
        rw (same, stays) ((==_iff _ _).0 same, collect-Consecutive ring rest (next_sequence n))
  ]
  | inr other ↦ rw other (collect-Consecutive ring rest n)
]

-- What the loops collect stands in the ring.
unfoldable pub In-suffix : (ring : List Envelope) → (rest : List Envelope) → Type 0
In-suffix ring rest = (e : Envelope) → In e rest → In e ring

collect_wrapped-In :
    (ring rest : List Envelope) (n : ℕ)
    → In-suffix ring rest
    → All (λ e. In e ring) (collect_wrapped rest n).0
unfolding collect_wrapped In-suffix
collect_wrapped-In ring [] n sub = tt
collect_wrapped-In ring (e ∷ rest) n sub = elim (Bool-cases (e.sequence == n)) [
  | inl same ↦
      rw same
        (sub e (inl refl), collect_wrapped-In ring rest (next_sequence n) (λ x h. sub x (inr h)))
  | inr other ↦ rw other (collect_wrapped-In ring rest n (λ x h. sub x (inr h)))
]

pub collect-In :
    (ring rest : List Envelope) (n : ℕ)
    → In-suffix ring rest
    → All (λ e. In e ring) (collect ring rest n).0
unfolding collect In-suffix
collect-In ring [] n sub = tt
collect-In ring (e ∷ rest) n sub = elim (Bool-cases (e.sequence == n)) [
  | inl same ↦ elim (Bool-cases (next_sequence n == 0)) [
    | inl wraps ↦
        rw (same, wraps)
          (
            sub e (inl refl),
            All-append (λ x. In x ring) (collect_wrapped ring 0).0 _
                (collect_wrapped-In ring ring 0 (λ x h. h))
                (collect-In ring rest (collect_wrapped ring 0).1 (λ x h. sub x (inr h))),
          )
    | inr stays ↦
        rw (same, stays)
          (sub e (inl refl), collect-In ring rest (next_sequence n) (λ x h. sub x (inr h)))
  ]
  | inr other ↦ rw other (collect-In ring rest n (λ x h. sub x (inr h)))
]

abbrev pub HasMessage : Envelope → Type 0
HasMessage e = (m : Message) × (e.message ≡ some m)

-- The messages that envelopes carry.
abbrev pub messages : List Envelope → List Message
messages [] = []
messages (e ∷ es) = elim e.message [ none ↦ messages es | some m ↦ m ∷ messages es ]

pub deliver_lem :
    (es : List Envelope) (r : Received)
    → All HasMessage es
    → ((deliver es r).delivered ≡ r.delivered ++ messages es)
      × ((deliver es r).channel.next_rx_sequence ≡ r.channel.next_rx_sequence)
unfolding deliver
deliver_lem [] r h = (sym (append-nil r.delivered), refl)
deliver_lem (e ∷ es) r ((m, em), h) =
    let (same, next) = deliver_lem es _ h in
    rw em (same ∙ append_assoc r.delivered (m ∷ []) (messages es), next)

remove-HasMessage :
    (s : ℕ) (ring : List Envelope) → All HasMessage ring → All HasMessage (remove s ring)
unfolding remove
remove-HasMessage s [] h = tt
remove-HasMessage s (e ∷ ring) h = elim (Bool-cases (e.sequence == s)) [
  | inl same ↦ rw same h.1
  | inr other ↦ rw other (h.0, remove-HasMessage s ring h.1)
]

pub deliver-HasMessage :
    (es : List Envelope) (r : Received)
    → All HasMessage r.channel.rx_ring
    → All HasMessage (deliver es r).channel.rx_ring
unfolding deliver
deliver-HasMessage [] r h = h
deliver-HasMessage (e ∷ es) r h = elim (Option-cases e.message) [
  | inl n ↦ rw n h
  | inr (m, em) ↦ rw em (deliver-HasMessage es _ (remove-HasMessage e.sequence r.channel.rx_ring h))
]

pub All-In :
    (P : Envelope → Type 0) (ring : List Envelope) (e : Envelope) → All P ring → In e ring → P e
All-In P [] e h i = absurd i
All-In P (x ∷ ring) e h (inl same) = subst P same h.0
All-In P (x ∷ ring) e h (inr i) = All-In P ring e h.1 i

pub All-split :
    (P : Envelope → Type 0) (front back : List Envelope) (e : Envelope)
    → All P (front ++ back)
    → P e
    → All P (front ++ e ∷ back)
All-split P [] back e h p = (p, h)
All-split P (x ∷ front) back e h p = (h.0, All-split P front back e h.1 p)

pub In-split :
    (front back : List Envelope) (e x : Envelope)
    → In x (front ++ e ∷ back)
    → In x (front ++ back) ⊎ (e ≡ x)
In-split [] back e x (inl same) = inr same
In-split [] back e x (inr i) = inl i
In-split (y ∷ front) back e x (inl same) = inl (inl same)
In-split (y ∷ front) back e x (inr i) = elim (In-split front back e x i) [
  | inl j ↦ inl (inr j)
  | inr same ↦ inr same
]

pub All-map :
    (P Q : Envelope → Type 0) (es : List Envelope)
    → ((e : Envelope) → P e → Q e)
    → All P es
    → All Q es
All-map P Q [] f h = tt
All-map P Q (e ∷ es) f h = (f e h.0, All-map P Q es f h.1)
