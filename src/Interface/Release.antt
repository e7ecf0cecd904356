-- ===== src/Interface/Release.antt =====
-- Which announce Interface.process_held_announces releases.
use reticulum.Prelude.{
  ℕ, ◌+◌, ◌≤◌, ◌<◌, ◌≡◌, ◌⊎◌, inl, inr, ap, ◌∙◌, sym, Bytes, [], ◌∷◌, false, ltb, Bool-cases,
  Option, none, some, arith, All,
}
use reticulum.Interface.{HeldAnnounce, Interface}
use reticulum.Interface.Limit.{should_ingress_limit}
use reticulum.Interface.Held.{
  Held, select, max_hops, pop, release, process_held_announces, should_ingress_limit-held,
}

-- An announce among those held.
abbrev pub IsHeld : HeldAnnounce → Held → Type 0
IsHeld a [] = ⊥
IsHeld a ((k, b) ∷ d) = (b ≡ a) ⊎ IsHeld a d

abbrev pub NoneNearer : ℕ → Held → Type 0
NoneNearer h d = All (λ (e : Bytes × HeldAnnounce). h ≤ e.1.hops) d

select-cases :
    (m : ℕ) (o : Option HeldAnnounce) (d : Held) (a : HeldAnnounce)
    → select m o d ≡ some a
    → ((o ≡ some a) × NoneNearer m d) ⊎ (IsHeld a d × (a.hops < m) × NoneNearer a.hops d)
unfolding select
select-cases m o [] a h = inl (h, tt)
select-cases m o ((k, b) ∷ d) a h = elim (Bool-cases (ltb b.hops m)) [
  | inl near ↦ ground (arith, near, select-cases b.hops (some b) d a)
  | inr far ↦ ground (arith, far, select-cases m o d a)
]

select_lem :
    (d : Held) (a : HeldAnnounce)
    → select max_hops none d ≡ some a
    → IsHeld a d × (a.hops < max_hops) × NoneNearer a.hops d
select_lem d a h = ground (arith, select-cases max_hops none d a h)

release_lem :
    (now : ℕ) (o : Option HeldAnnounce) (i j : Interface) (a : HeldAnnounce)
    → release now o i ≡ (some a, j)
    → (o ≡ some a)
      × (j.held_announces ≡ pop a.destination_hash i.held_announces)
      × (j.ic_held_release ≡ now + i.ic_held_release_interval)
release_lem now none i j a h = ground arith
release_lem now (some b) i j a h =
    let same : b ≡ a = ground arith in
    (
      ap some same,
      sym (ap (λ (t : Option HeldAnnounce × Interface). t.1.held_announces) h)
          ∙ ap (λ (t : HeldAnnounce). pop t.destination_hash i.held_announces) same,
      sym (ap (λ (t : Option HeldAnnounce × Interface). t.1.ic_held_release) h),
    )

-- Where an announce is released, nothing is limited, and the release is that of the chosen one.
process_lem :
    (now : ℕ) (i j : Interface) (a : HeldAnnounce)
    → process_held_announces now i ≡ (some a, j)
    → ((should_ingress_limit now i).0 ≡ false)
      × (release now
            (select max_hops none (should_ingress_limit now i).1.held_announces)
            (should_ingress_limit now i).1
          ≡ (some a, j))
unfolding process_held_announces
process_lem now i j a h = ground arith

-- A released announce was held, has fewer than 128 hops, and no announce that is held has fewer
-- than it. It is no longer held, and the next one is not released before the interval is over.
pub process_held_announces-released :
    (now : ℕ) (i j : Interface) (a : HeldAnnounce)
    → process_held_announces now i ≡ (some a, j)
    → IsHeld a i.held_announces
      × (a.hops < max_hops)
      × NoneNearer a.hops i.held_announces
      × (j.held_announces ≡ pop a.destination_hash i.held_announces)
      × (j.ic_held_release ≡ now + i.ic_held_release_interval)
      × ((should_ingress_limit now i).0 ≡ false)
process_held_announces-released now i j a h =
    let (held, most, interval) = should_ingress_limit-held now i in
    let (unlimited, released) = process_lem now i j a h in
    let (chosen, gone, later) = release_lem now _ (should_ingress_limit now i).1 j a released in
    let (there, near, nearest) = select_lem _ a chosen in
    (
      rw (sym held) there,
      near,
      rw (sym held) nearest,
      gone ∙ ap (pop a.destination_hash) held,
      later ∙ ap (◌+◌ now) interval,
      unlimited,
    )
