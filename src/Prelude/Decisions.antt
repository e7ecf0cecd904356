-- ===== src/Prelude/Decisions.antt =====
-- Boolean tests that decide conditions, one test at a time and put together.
use reticulum.Prelude.{
  ℕ, ◌<◌, ◌≡◌, ◌⊎◌, inl, inr, refl, ◌∙◌, Bool, Bool-cases, true, false, not, ltb, ltb→lt, ltb→le,
  ◌==◌, ==_iff, ◌&&◌, if◌then◌else◌, arith,
}

-- A test that decides a condition.
abbrev pub Decides : Bool → Type 0 → Type 0
Decides b P = ((b ≡ true) × P) ⊎ ((b ≡ false) × ¬ P)

module _ {P Q : Type 0} where
  pub both_lem : (a b : Bool) → Decides a P → Decides b Q → Decides (a && b) (P × Q)
  both_lem a b (inr (f, bad)) e = inr (rw f refl, λ (p, q). bad p)
  both_lem a b (inl (t, p)) (inl (u, q)) = inl (rw (t, u) refl, (p, q))
  both_lem a b (inl (t, p)) (inr (u, bad)) = inr (rw (t, u) refl, λ (p', q). bad q)

  pub convert_lem : (a : Bool) → (P → Q) → (Q → P) → Decides a P → Decides a Q
  convert_lem a to back (inl (t, p)) = inl (t, to p)
  convert_lem a to back (inr (f, bad)) = inr (f, λ q. bad (back q))

pub answer_lem : {P : Type 0} → (a b : Bool) → Decides b P → a ≡ b → Decides a P
answer_lem a b (inl (t, p)) h = inl (h ∙ t, p)
answer_lem a b (inr (f, bad)) h = inr (h ∙ f, bad)

pub not_lem : {P : Type 0} → (a : Bool) → Decides a P → Decides (not a) (¬ P)
not_lem a (inl (t, p)) = inr (rw t refl, λ bad. bad p)
not_lem a (inr (f, bad)) = inl (rw f refl, bad)

pub eq_lem : (m n : ℕ) → Decides (m == n) (m ≡ n)
eq_lem m n = elim (Bool-cases (m == n)) [
  | inl same ↦ inl (same, (==_iff m n).0 same)
  | inr other ↦ inr (other, λ e. ground arith)
]

pub ltb_lem : (m n : ℕ) → Decides (ltb m n) (m < n)
ltb_lem m n = elim (Bool-cases (ltb m n)) [
  | inl less ↦ inl (less, ltb→lt m n less)
  | inr more ↦ inr (more, λ less. absurd (omega (arith, less, ltb→le m n more)))
]

-- A property of both branches, each under its answer.
pub if-both :
    {A : Type 0}
    → (P : A → Type 0) (b : Bool) (x y : A) → (b ≡ true → P x)
    → (b ≡ false → P y)
    → P (if b then x else y)
if-both P true x y hx hy = hx refl
if-both P false x y hx hy = hy refl
