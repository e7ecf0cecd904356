-- ===== src/Prelude/Tables.antt =====
-- Facts about all numbers under a bound, by trying each of them: what the bit operations on a byte
-- do is read off such a table.
use reticulum.Prelude.{ℕ, zero, suc, ◌<◌, ◌≡◌, Bool, true, false, arith, if◌then◌else◌}

unfoldable pub all_below : (bound : ℕ) (test : ℕ → Bool) → Bool
all_below zero test = true
all_below (suc k) test = if test k then all_below k test else false

split_table :
    (k : ℕ) (test : ℕ → Bool)
    → all_below (suc k) test ≡ true
    → (test k ≡ true) × (all_below k test ≡ true)
unfolding all_below
split_table k test table = ground arith

pub all_below_sound :
    (bound : ℕ) (test : ℕ → Bool)
    → all_below bound test ≡ true
    → (x : ℕ) → x < bound
    → test x ≡ true
all_below_sound zero test table x h = absurd (omega arith)
all_below_sound (suc k) test table x h =
    let (last, rest) = split_table k test table in
    ground (arith, last, all_below_sound k test rest x)
