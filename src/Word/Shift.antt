-- ===== src/Word/Shift.antt =====
-- Shifts by a count of at least the width, and by one.
use temporal_determinizer.Prelude.{ℕ, ◌-◌, ◌≤◌, ◌≡◌, arith, if◌then◌else◌}
use temporal_determinizer.Word.{IntKind, int, width, modulus, is_neg, shl, shr, add}

pub shl_wide : (k : IntKind) (a n : ℕ) → width k ≤ n → shl k a n ≡ 0
unfolding shl
shl_wide int a n h = ground arith
shl_wide _ a n h = ground arith

-- what comes in from the left is the sign
pub shr_wide :
    (k : IntKind) (a n : ℕ) → width k ≤ n → shr k a n ≡ (if is_neg k a then modulus k - 1 else 0)
unfolding shr
shr_wide int a n h = ground arith
shr_wide _ a n h = ground arith

pub shl_one : (k : IntKind) (a : ℕ) → shl k a 1 ≡ add k a a
unfolding shl add
shl_one int a = ground arith
shl_one _ a = ground arith
