-- ===== src/Word/Range.antt =====
-- The results of the operations are patterns of their type.
use temporal_determinizer.Prelude.{ℕ, ◌<◌, arith}
use temporal_determinizer.Word.{
  IntKind, int, modulus, add, sub, mul, quo, rem, neg, shl, shr, complement, convert,
}

pub add-lt : (k : IntKind) (a b : ℕ) → add k a b < modulus k
unfolding add
add-lt int a b = omega arith
add-lt _ a b = omega arith

pub sub-lt : (k : IntKind) (a b : ℕ) → sub k a b < modulus k
unfolding sub
sub-lt int a b = omega arith
sub-lt _ a b = omega arith

pub mul-lt : (k : IntKind) (a b : ℕ) → mul k a b < modulus k
unfolding mul
mul-lt int a b = omega arith
mul-lt _ a b = omega arith

pub quo-lt : (k : IntKind) (a b : ℕ) → quo k a b < modulus k
unfolding quo
quo-lt int a b = ground arith
quo-lt _ a b = ground arith

pub rem-lt : (k : IntKind) (a b : ℕ) → rem k a b < modulus k
unfolding rem
rem-lt int a b = ground arith
rem-lt _ a b = ground arith

pub neg-lt : (k : IntKind) (a : ℕ) → neg k a < modulus k
unfolding neg
neg-lt int a = omega arith
neg-lt _ a = omega arith

pub complement-lt : (k : IntKind) (a : ℕ) → complement k a < modulus k
unfolding complement
complement-lt int a = omega arith
complement-lt _ a = omega arith

pub shl-lt : (k : IntKind) (a n : ℕ) → shl k a n < modulus k
unfolding shl
shl-lt int a n = ground arith
shl-lt _ a n = ground arith

pub shr-lt : (k : IntKind) (a n : ℕ) → a < modulus k → shr k a n < modulus k
unfolding shr
shr-lt int a n h = ground arith
shr-lt _ a n h = ground arith

pub convert-lt : (dst src : IntKind) (a : ℕ) → convert dst src a < modulus dst
unfolding convert
convert-lt int src a = omega arith
convert-lt _ src a = omega arith
