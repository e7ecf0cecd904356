-- ===== src/Transport/Rate.antt =====
-- The rate limit on the announces of a destination, in Transport.inbound: what it does for a packet
-- that is no path response, on an interface with a rate target. Times are seconds.
use reticulum.Prelude.{
  ℕ, ◌+◌, ◌-◌, ◌≤◌, ◌<◌, ◌≡◌, ◌⊎◌, List, [], ◌∷◌, ◌++◌, length, drop, length-drop, Bool, true,
  false, ltb, Option, none, some, arith, if◌then◌else◌,
}

pub record RateEntry : Type 0 where
  pub last : ℕ
  pub rate_violations : ℕ
  pub blocked_until : ℕ
  pub timestamps : List ℕ

-- announce_rate_target, announce_rate_grace and announce_rate_penalty of the interface.
pub record RateLimit : Type 0 where
  pub target : ℕ
  pub grace : ℕ
  pub penalty : ℕ

abbrev pub max_rate_timestamps : ℕ
max_rate_timestamps = 16

-- The new time goes to the end; the oldest go while there are too many.
unfoldable pub note_time : ℕ → List ℕ → List ℕ
note_time now ts = let longer = ts ++ now ∷ [] in drop (length longer - max_rate_timestamps) longer

-- The violations after an announce at `now`, and whether they block it.
unfoldable pub judge : RateLimit → ℕ → RateEntry → Bool × RateEntry
judge limit now e =
    let violations =
      if ltb (now - e.last) limit.target then e.rate_violations + 1 else e.rate_violations - 1 in
    if ltb limit.grace violations
    then (
      true,
      record e {
        rate_violations = violations;
        blocked_until = e.last + limit.target + limit.penalty;
      },
    )
    else (false, record e { rate_violations = violations; last = now })

-- Whether the announce is blocked, and the entry of its destination after it.
unfoldable pub limit_rate : RateLimit → ℕ → Option RateEntry → Bool × RateEntry
unfolding judge note_time
limit_rate limit now none =
    (false, record { last = now; rate_violations = 0; blocked_until = 0; timestamps = now ∷ [] })
limit_rate limit now (some e) =
    let noted : RateEntry = record e { timestamps = note_time now e.timestamps } in
    if ltb e.blocked_until now then judge limit now noted else (true, noted)

-- An announce for a known destination either passes or is blocked. It passes only after the end of
-- a block, with violations within the grace, and is then the one that the next is measured from. It
-- is blocked only during a block, or with violations above the grace, which start a new block; the
-- next is then measured from the same announce as before.
pub limit_rate-passes :
    (limit : RateLimit) (now : ℕ) (e : RateEntry)
    → ((limit_rate limit now (some e)).0 ≡ false)
        × (e.blocked_until < now)
        × ((limit_rate limit now (some e)).1.rate_violations ≤ limit.grace)
        × ((limit_rate limit now (some e)).1.last ≡ now)
      ⊎ ((limit_rate limit now (some e)).0 ≡ true)
        × ((limit_rate limit now (some e)).1.last ≡ e.last)
        × ((now ≤ e.blocked_until)
            ⊎ ((limit.grace < (limit_rate limit now (some e)).1.rate_violations)
                × ((limit_rate limit now (some e)).1.blocked_until
                    ≡ e.last + limit.target + limit.penalty)))
unfolding limit_rate judge
limit_rate-passes limit now e = ground arith

-- At most 16 times are kept, the new one among them.
pub length-note_time : (now : ℕ) (ts : List ℕ) → length (note_time now ts) ≤ max_rate_timestamps
unfolding note_time
length-note_time now ts =
    omega (arith, length-drop (length (ts ++ now ∷ []) - max_rate_timestamps) (ts ++ now ∷ []))
